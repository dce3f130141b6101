-- ===== src/MultiSession/Report/Laws.antt =====
-- The summary never raises, and its figures are those of the rows.
use mathlib.Core.List.{Perm}
use mathlib.Core.List.Perm
use ai_infra_demo.Stats.Order.{p95-Perm, double_median-Perm, maximum-Perm}
use ai_infra_demo.Base.{
  ◌<◌, ◌*◌, ◌≡◌, ◌≢◌, refl, ℕ, Option, none, arith, length-Perm, some, List, [], ◌∷◌, length, leb,
}
use ai_infra_demo.Py.Result.{ok, map_ok}
use ai_infra_demo.Stats.{sort_by, maximum}
use ai_infra_demo.Stats.Sorted.{count_if, sort_by-perm}
use ai_infra_demo.Stats.Percentile.{p95_total, p95_coverage, maximum_total}
use ai_infra_demo.Stats.Median.{IsMedian, double_median-IsMedian}
use ai_infra_demo.MultiSession.{Row}
use ai_infra_demo.MultiSession.Report.{Report, report, row_le, ttfts, tpots}

-- A run with results prints a summary: it counts the rows, the table holds them, each once, the
-- medians split the figures in halves, more than 95 of 100 requests are within the TTFT percentile,
-- and the maximum is that of the TTFTs.
pub report_total :
    (rows : List Row)
    → rows ≢ []
    → (r : Report) × (report rows ≡ ok (some r))
      × (r.requests ≡ length rows)
      × Perm r.table rows
      × IsMedian r.ttft_p50 (ttfts rows)
      × (95 * length (ttfts rows) < 100 * count_if (λ t. leb t r.ttft_p95) (ttfts rows))
      × (maximum (ttfts rows) ≡ ok r.ttft_max)
      × IsMedian r.tpot_p50 (tpots rows)
unfolding report
report_total [] h = absurd (h refl)
report_total (x ∷ xs) h =
    let rows = x ∷ xs in
    let (p50, e, middle) = double_median-IsMedian (ttfts rows) (λ q. cc) in
    let (v, f) = p95_total (ttfts rows) (λ q. cc) in
    let (m, g) = maximum_total x.ttft_ms (ttfts xs) in
    let (q50, k, centre) = double_median-IsMedian (tpots rows) (λ q. cc) in
    (
      record {
        table = sort_by row_le rows;
        requests = length rows;
        ttft_p50 = p50;
        ttft_p95 = v;
        ttft_max = m;
        tpot_p50 = q50;
      },
      rw (e, f, g, k),
      refl,
      sort_by-perm row_le rows,
      middle,
      (p95_coverage (ttfts rows) v f).0,
      g,
      centre,
    )

-- What the summary prints.
abbrev pub figures : Option Report → Option (ℕ × ℕ × ℕ × ℕ × ℕ)
figures none = none
figures (some r) = some (r.requests, r.ttft_p50, r.ttft_p95, r.ttft_max, r.tpot_p50)

-- The printed summary is the same for the same rows in another order, that in which the sessions
-- happened to complete.
pub report-Perm :
    (rows rows' : List Row)
    → Perm rows rows'
    → map_ok figures (report rows) ≡ map_ok figures (report rows')
unfolding report
report-Perm [] [] p = refl
report-Perm [] (y ∷ ys) p = absurd (omega (arith, length-Perm p))
report-Perm (x ∷ xs) [] p = absurd (omega (arith, length-Perm p))
report-Perm (x ∷ xs) (y ∷ ys) p =
    let rows = x ∷ xs in
    let rows' = y ∷ ys in
    let t = Perm.map (λ (r : Row). r.ttft_ms) p in
    let (p50, e, middle) = double_median-IsMedian (ttfts rows') (λ q. cc) in
    let (v, f) = p95_total (ttfts rows') (λ q. cc) in
    let (m, g) = maximum_total y.ttft_ms (ttfts ys) in
    let (q50, k, centre) = double_median-IsMedian (tpots rows') (λ q. cc) in
    let u = Perm.map (λ (r : Row). r.tpot_ms) p in
    rw
      (
        double_median-Perm (ttfts rows) (ttfts rows') t,
        p95-Perm (ttfts rows) (ttfts rows') t,
        maximum-Perm (ttfts rows) (ttfts rows') t,
        double_median-Perm (tpots rows) (tpots rows') u,
        length-Perm p,
        e,
        f,
        g,
        k,
      )
      refl
