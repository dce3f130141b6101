-- ===== src/MultiSession/Report.antt =====
-- load_test_multi_session.py below `if not all_results`: the table and the summary.
-- A median is held doubled, so that it is a whole number of half tenths.
pub mod Laws
pub mod Table
pub mod Readable
use ai_infra_demo.Base.{
  ℕ, Bool, Option, none, some, List, [], ◌∷◌, length, map, leb, ◌==◌, if◌then◌else◌,
}
use ai_infra_demo.Py.Result.{Result, ok, ◌>>=◌}
use ai_infra_demo.Stats.{sort_by, double_median, p95, maximum}
use ai_infra_demo.MultiSession.{Row}

-- `(x["session"], x["turn"])` compared with another.
abbrev pub row_le : Row → Row → Bool
row_le a b = if a.session == b.session then leb a.turn b.turn else leb a.session b.session

pub record Report : Type 0 where
  pub table : List Row
  pub requests : ℕ
  pub ttft_p50 : ℕ
  pub ttft_p95 : ℕ
  pub ttft_max : ℕ
  pub tpot_p50 : ℕ

abbrev pub ttfts : List Row → List ℕ
ttfts rows = map (λ (r : Row). r.ttft_ms) rows

abbrev pub tpots : List Row → List ℕ
tpots rows = map (λ (r : Row). r.tpot_ms) rows

-- `none` is "No results collected."
unfoldable pub report : List Row → Result (Option Report)
report [] = ok none
report (r ∷ rs) = do
  let rows = r ∷ rs
  ttft_p50 ← double_median (ttfts rows)
  ttft_p95 ← p95 (ttfts rows)
  ttft_max ← maximum (ttfts rows)
  tpot_p50 ← double_median (tpots rows)
  ok (
      some (record {
        table = sort_by row_le rows;
        requests = length rows;
        ttft_p50 = ttft_p50;
        ttft_p95 = ttft_p95;
        ttft_max = ttft_max;
        tpot_p50 = tpot_p50;
      }))
