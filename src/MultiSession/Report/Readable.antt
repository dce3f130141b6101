-- ===== src/MultiSession/Report/Readable.antt =====
-- The lines of the table of load_test_multi_session.py, read back.
use mathlib.Core.List.{Perm, foldl-append, append-nil}
use ai_infra_demo.Base.{
  ℕ, ◌+◌, ◌*◌, ◌/◌, ◌%◌, ◌<◌, ◌≡◌, ◌≢◌, refl, sym, ap, ◌∙◌, Bool-cases, true, false, inl, inr,
  Option, none, some, List, [], ◌∷◌, ◌++◌, map, leb, ltb, ◌==◌, if◌then◌else◌, arith,
}
use ai_infra_demo.Py.Result.{ok}
use ai_infra_demo.Py.Text.{Text}
use ai_infra_demo.Py.Decimal.{decimal, digits, of_digits, of_digits-decimal}
use ai_infra_demo.Py.Digits.{is_digit, AllDigits}
use ai_infra_demo.Operator.Strings.{fields}
use ai_infra_demo.Operator.Strings.Laws.{decimal-AllDigits}
use ai_infra_demo.MultiSession.{Row}
use ai_infra_demo.MultiSession.Report.{Report, report}
use ai_infra_demo.MultiSession.Report.Laws.{report_total}
use ai_infra_demo.MultiSession.Report.Table.{
  row_line, print_report, tenths, tpot_text, fields-row_line,
}

abbrev without_point : Text → Text
without_point [] = []
without_point (c ∷ t) = let rest = without_point t in if c == 46 then rest else c ∷ rest

-- A figure in tenths.
abbrev of_tenths : Text → ℕ
of_tenths t = of_digits (without_point t)

abbrev read_cells : List Text → Option Row
read_cells (a ∷ b ∷ c ∷ d ∷ e ∷ f ∷ []) = some (record {
  session = of_digits a;
  turn = of_digits b;
  prompt_messages = of_digits f;
  ttft_ms = of_tenths c;
  tpot_ms = of_tenths d;
  total_tokens = of_digits e;
})
read_cells cs = none

-- The row that a line stands for: its columns are the texts between spaces.
abbrev pub read_line : Text → Option Row
read_line t = read_cells (fields t)

digit-ne-point : (c : ℕ) → is_digit c ≡ true → (c == 46) ≡ false
digit-ne-point c h = ground arith

without_point-AllDigits : (t u : Text) → AllDigits t → without_point (t ++ u) ≡ t ++ without_point u
without_point-AllDigits [] u d = refl
without_point-AllDigits (c ∷ t) u (h, d) =
    rw (digit-ne-point c h) (ap (◌∷◌ c) (without_point-AllDigits t u d))

one_digit : (n : ℕ) → n < 10 → decimal n ≡ (48 + n) ∷ []
unfolding decimal digits
one_digit n h = elim (Bool-cases (ltb n 10)) [
  | inl small ↦ rw (small, digits) refl
  | inr large ↦ absurd (ground arith)
]

without_point-decimal : (n : ℕ) → without_point (decimal n) ≡ decimal n
without_point-decimal n =
    ap without_point (sym (append-nil (decimal n)))
    ∙ without_point-AllDigits (decimal n) [] (decimal-AllDigits n)
    ∙ append-nil (decimal n)

of_tenths-decimal : (n : ℕ) → of_tenths (decimal n) ≡ n
of_tenths-decimal n = ap of_digits (without_point-decimal n) ∙ of_digits-decimal n

of_digits_next : (t : Text) (d : ℕ) → of_digits (t ++ (48 + d) ∷ []) ≡ of_digits t * 10 + d
unfolding of_digits
of_digits_next t d = rw foldl-append (omega arith)

of_tenths-tenths : (n : ℕ) → of_tenths (tenths n) ≡ n
of_tenths-tenths n =
    ap of_digits (
      without_point-AllDigits (decimal (n / 10)) (46 ∷ decimal (n % 10))
        (decimal-AllDigits (n / 10))
      ∙ ap (◌++◌ (decimal (n / 10)))
          (without_point-decimal (n % 10) ∙ one_digit (n % 10) (omega arith)))
    ∙ of_digits_next (decimal (n / 10)) (n % 10)
    ∙ rw (of_digits-decimal (n / 10)) (omega arith)

of_tenths-tpot_text : (r : Row) → of_tenths (tpot_text r) ≡ r.tpot_ms
of_tenths-tpot_text r = elim (Bool-cases (leb r.total_tokens 1)) [
  | inl one ↦ rw one (of_tenths-decimal r.tpot_ms)
  | inr more ↦ rw more (of_tenths-tenths r.tpot_ms)
]

read_line-row_line : (r : Row) → read_line (row_line r) ≡ some r
read_line-row_line r =
    ap read_cells (fields-row_line r)
    ∙ rw
        (
          of_digits-decimal r.session,
          of_digits-decimal r.turn,
          of_digits-decimal r.prompt_messages,
          of_digits-decimal r.total_tokens,
          of_tenths-tenths r.ttft_ms,
          of_tenths-tpot_text r,
        )
        refl

read_lines : (rows : List Row) → map read_line (map row_line rows) ≡ map some rows
read_lines [] = refl
read_lines (r ∷ rs) = rw (read_line-row_line r, read_lines rs) refl

-- A run with results prints a table from which every result can be read back, each once, whatever the
-- widths of its figures: a line without its padding is the six figures of one row.
pub print_report-read_line :
    (rows : List Row)
    → rows ≢ []
    → (r : Report) × (above : List Text) × (table : List Text) × (below : List Text) × (report rows
        ≡ ok (some r))
      × (print_report (some r) ≡ above ++ (table ++ below))
      × (map read_line table ≡ map some r.table)
      × Perm r.table rows
unfolding print_report
print_report-read_line rows some_row =
    let (r, e, _, p, _, _, _, _) = report_total rows some_row in
    (r, _ ∷ _ ∷ _ ∷ [], map row_line r.table, _, e, refl, read_lines r.table, p)
