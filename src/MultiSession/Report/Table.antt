-- ===== src/MultiSession/Report/Table.antt =====
-- The lines that load_test_multi_session.py prints of its results. A figure is printed as a double below
-- 10^16, without an exponent.
use mathlib.Core.List.{append_assoc}
use ai_infra_demo.Base.{
  ℕ, zero, suc, ◌-◌, ◌/◌, ◌%◌, ◌≡◌, ◌≢◌, refl, ap, ◌∙◌, Option, none, some, List, [], ◌∷◌, ◌++◌,
  map, Bool-cases, inl, inr, length, leb, if◌then◌else◌,
}
use ai_infra_demo.Py.Text.{Text, codes}
use ai_infra_demo.Py.Decimal.{decimal}
use ai_infra_demo.Py.Round.{round_div}
use ai_infra_demo.Operator.Strings.{is_space, fields, nonempty, split_by}
use ai_infra_demo.Operator.Strings.Laws.{
  Free, Free-append, split_by-Free, split_by_next, print_int-Free, print_int-ne-nil,
}
use ai_infra_demo.Base.Int.{pos}
use ai_infra_demo.MultiSession.{Row}
use ai_infra_demo.MultiSession.Report.{Report}

abbrev pub repeated : ℕ → ℕ → Text
repeated c zero = []
repeated c (suc n) = c ∷ repeated c n

-- `f"{t:<w}"`
unfoldable pub ljust : ℕ → Text → Text
ljust w t = t ++ repeated 32 (w - length t)

-- A figure with one digit after the point.
abbrev pub tenths : ℕ → Text
tenths n = decimal (n / 10) ++ 46 ∷ decimal (n % 10)

-- `tpot_ms` is the int 0 where there is no token after the first.
abbrev pub tpot_text : Row → Text
tpot_text r = if leb r.total_tokens 1 then decimal r.tpot_ms else tenths r.tpot_ms

-- A column and the space behind it.
unfoldable pub column : ℕ → Text → Text → Text
unfolding ljust
column w t rest = ljust w t ++ 32 ∷ rest

abbrev pub columns : Text → Text → Text → Text → Text → Text → Text
columns a b c d e f = column 10 a (column 6 b (column 12 c (column 12 d (column 8 e f))))

unfoldable pub row_line : Row → Text
row_line r =
    columns (decimal r.session) (decimal r.turn) (tenths r.ttft_ms) (tpot_text r)
      (decimal r.total_tokens) (decimal r.prompt_messages)

unfoldable pub print_report : Option Report → List Text
unfolding row_line
print_report none = codes "No results collected." ∷ []
print_report (some r) =
    []
      ∷ columns (codes "Session") (codes "Turn") (codes "TTFT (ms)") (codes "TPOT (ms)")
          (codes "Tokens") (codes "Msg count")
      ∷ repeated 45 60
      ∷ map row_line r.table
    ++ []
      ∷ (codes "--- Summary across " ++ decimal r.requests ++ codes " requests ---")
      ∷ (codes "TTFT  p50: "
          ++ decimal (round_div r.ttft_p50 20)
          ++ codes " ms  p95: "
          ++ decimal (round_div r.ttft_p95 10)
          ++ codes " ms  max: "
          ++ decimal (round_div r.ttft_max 10)
          ++ codes " ms")
      ∷ (codes "TPOT  p50: " ++ tenths (round_div r.tpot_p50 2) ++ codes " ms/token")
      ∷ []

-- The texts in the columns of a row.
abbrev pub cells : Row → List Text
cells r =
    decimal r.session
    ∷ decimal r.turn
    ∷ tenths r.ttft_ms
    ∷ tpot_text r
    ∷ decimal r.total_tokens
    ∷ decimal r.prompt_messages
    ∷ []

-- A word of a line.
record IsWord (t : Text) : Type 0 where
  some_char : t ≢ []
  free : Free is_space t

fields_next : (t u : Text) → IsWord t → fields (t ++ 32 ∷ u) ≡ t ∷ fields u
unfolding fields
fields_next [] u word = absurd (word.some_char refl)
fields_next (c ∷ t) u word = ap nonempty (split_by_next is_space (c ∷ t) 32 u word.free refl)

fields_last : (t : Text) → IsWord t → fields t ≡ t ∷ []
unfolding fields
fields_last [] word = absurd (word.some_char refl)
fields_last (c ∷ t) word = ap nonempty (split_by-Free is_space (c ∷ t) word.free)

fields-repeated : (n : ℕ) (u : Text) → fields (repeated 32 n ++ u) ≡ fields u
unfolding fields split_by
fields-repeated zero u = refl
fields-repeated (suc n) u = fields-repeated n u

fields_padded :
    (n : ℕ) (t u : Text) → IsWord t → fields (t ++ (repeated 32 n ++ 32 ∷ u)) ≡ t ∷ fields u
fields_padded zero t u word = fields_next t u word
fields_padded (suc n) t u word =
    fields_next t (repeated 32 n ++ 32 ∷ u) word
    ∙ ap (◌∷◌ t) (fields-repeated n (32 ∷ u) ∙ fields-repeated 1 u)

-- A column of any width.
fields-column : (w : ℕ) (t u : Text) → IsWord t → fields (column w t u) ≡ t ∷ fields u
unfolding column ljust
fields-column w t u word =
    ap fields (append_assoc t (repeated 32 (w - length t)) (32 ∷ u))
    ∙ fields_padded (w - length t) t u word

decimal-IsWord : (n : ℕ) → IsWord (decimal n)
decimal-IsWord n = record { some_char = print_int-ne-nil (pos n); free = print_int-Free (pos n) }

append-ne-nil : (s : Text) (c : ℕ) (t : Text) → s ++ c ∷ t ≢ []
append-ne-nil [] c t e = cc
append-ne-nil (d ∷ s) c t e = cc

tenths-IsWord : (n : ℕ) → IsWord (tenths n)
tenths-IsWord n = record {
  some_char = append-ne-nil (decimal (n / 10)) 46 (decimal (n % 10));
  free =
      Free-append is_space (decimal (n / 10)) (46 ∷ decimal (n % 10)) (decimal-IsWord (n / 10)).free
        (refl, (decimal-IsWord (n % 10)).free);
}

tpot_text-IsWord : (r : Row) → IsWord (tpot_text r)
tpot_text-IsWord r = elim (Bool-cases (leb r.total_tokens 1)) [
  | inl one ↦ rw one (decimal-IsWord r.tpot_ms)
  | inr more ↦ rw more (tenths-IsWord r.tpot_ms)
]

pub fields-row_line : (r : Row) → fields (row_line r) ≡ cells r
unfolding row_line
fields-row_line r =
    fields-column 10 _ _ (decimal-IsWord r.session)
    ∙ ap (◌∷◌ (decimal r.session)) (
        fields-column 6 _ _ (decimal-IsWord r.turn)
        ∙ ap (◌∷◌ (decimal r.turn)) (
            fields-column 12 _ _ (tenths-IsWord r.ttft_ms)
            ∙ ap (◌∷◌ (tenths r.ttft_ms)) (
                fields-column 12 _ _ (tpot_text-IsWord r)
                ∙ ap (◌∷◌ (tpot_text r)) (
                    fields-column 8 _ _ (decimal-IsWord r.total_tokens)
                    ∙ ap (◌∷◌ (decimal r.total_tokens))
                        (fields_last _ (decimal-IsWord r.prompt_messages))))))
