-- ===== src/Samples/Reports.antt =====
-- The report of a few rows, and the theorems about statistics and the report there.
use mathlib.Core.List.{Perm}
use mathlib.Core.List.Perm
use ai_infra_demo.Base.{ℕ, ◌++◌, map, ◌*◌, ◌<◌, ◌≡◌, ◌≢◌, refl, some, List, [], ◌∷◌, length, leb}
use ai_infra_demo.Py.Result.{map_ok, ok}
use ai_infra_demo.Py.Text.{Text, codes}
use ai_infra_demo.Py.Decimal.{decimal, digits}
use ai_infra_demo.Stats.{p95, maximum, double_median, double_middle, sort_by, insert_sorted}
use ai_infra_demo.Stats.Sorted.{count_if}
use ai_infra_demo.Stats.Median.{IsMedian}
use ai_infra_demo.MultiSession.{Row}
use ai_infra_demo.MultiSession.Report.{Report, report, ttfts, tpots}
use ai_infra_demo.MultiSession.Report.Table.{row_line, column, ljust, print_report}
use ai_infra_demo.MultiSession.Report.Readable.{read_line, print_report-read_line}
use ai_infra_demo.MultiSession.Report.Laws.{report_total, figures, report-Perm}

abbrev sample_ttfts : List ℕ
sample_ttfts = 210 ∷ 90 ∷ 150 ∷ []

some_ttfts : sample_ttfts ≢ []
some_ttfts q = cc

sample_p95 : p95 sample_ttfts ≡ ok 210
unfolding p95 sort_by insert_sorted
sample_p95 = refl

sample_median : double_median sample_ttfts ≡ ok 300
unfolding double_median double_middle sort_by insert_sorted
sample_median = refl

abbrev sample_row : ℕ → ℕ → ℕ → Row
sample_row session turn ttft_ms = record {
  session = session;
  turn = turn;
  prompt_messages = 2 * turn;
  ttft_ms = ttft_ms;
  tpot_ms = 12;
  total_tokens = 40;
}

abbrev sample_rows : List Row
sample_rows = sample_row 2 1 210 ∷ sample_row 1 1 90 ∷ sample_row 1 2 150 ∷ []

some_rows : sample_rows ≢ []
some_rows q = cc

report_total_example :
    (r : Report) × (report sample_rows ≡ ok (some r))
    × (r.requests ≡ length sample_rows)
    × Perm r.table sample_rows
    × IsMedian r.ttft_p50 (ttfts sample_rows)
    × (95 * length (ttfts sample_rows) < 100 * count_if (λ t. leb t r.ttft_p95) (ttfts sample_rows))
    × (maximum (ttfts sample_rows) ≡ ok r.ttft_max)
    × IsMedian r.tpot_p50 (tpots sample_rows)
report_total_example = report_total sample_rows some_rows

-- The rows of two sessions, session 1 first.
abbrev other_order : List Row
other_order = sample_row 1 1 90 ∷ sample_row 2 1 210 ∷ sample_row 1 2 150 ∷ []

report-Perm_example : map_ok figures (report sample_rows) ≡ map_ok figures (report other_order)
report-Perm_example =
    report-Perm sample_rows other_order
      (Perm.swap (sample_row 1 1 90) (sample_row 2 1 210) (sample_row 1 2 150 ∷ []))

printed_row :
    row_line (sample_row 12 1 905) ≡ codes "12         1      90.5         1.2          40       2"
unfolding row_line column ljust decimal digits
printed_row = refl

print_report-read_line_example :
    (r : Report) × (above : List Text) × (table : List Text) × (below : List Text) × (report
        sample_rows
      ≡ ok (some r))
    × (print_report (some r) ≡ above ++ (table ++ below))
    × (map read_line table ≡ map some r.table)
    × Perm r.table sample_rows
print_report-read_line_example = print_report-read_line sample_rows some_rows
