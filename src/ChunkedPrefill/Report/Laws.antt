-- ===== src/ChunkedPrefill/Report/Laws.antt =====
-- When the report of the chunked-prefill load test is printed, and when it raises.
use mathlib.Core.List.{Perm}
use ai_infra_demo.Base.{
  ℕ, ◌<◌, ◌≤◌, ◌*◌, ◌≡◌, ◌≢◌, refl, Option, none, some, List, [], ◌∷◌, length, leb,
}
use ai_infra_demo.Py.Result.{ok, raised, statistics_error}
use ai_infra_demo.Stats.{sort_by, double_median}
use ai_infra_demo.Stats.Sorted.{count_if, sort_by-perm}
use ai_infra_demo.Stats.Percentile.{p95_total, p95_coverage}
use ai_infra_demo.Stats.Median.{IsMedian, double_median-IsMedian}
use ai_infra_demo.Injections.{Entry}
use ai_infra_demo.ChunkedPrefill.Report.{
  Percentiles, percentiles, inject_percentiles, Report, report, entry_le, ttfts_if, chat_ttfts,
  inject_ttfts,
}

-- What printed percentiles say of a sample.
pub record Describes (p : Percentiles) (ttfts : List ℕ) : Type 0 where
  pub requests : p.requests ≡ length ttfts
  pub middle : IsMedian p.p50 ttfts
  pub within : 95 * length ttfts < 100 * count_if (λ t. leb t p.p95) ttfts
  pub beyond : 5 * length ttfts ≤ 100 * count_if (λ t. leb p.p95 t) ttfts

percentiles-Describes :
    (ttfts : List ℕ)
    → ttfts ≢ []
    → (p : Percentiles) × (percentiles ttfts ≡ ok p) × Describes p ttfts
unfolding percentiles
percentiles-Describes ttfts h =
    let (m, e, middle) = double_median-IsMedian ttfts h in
    let (v, f) = p95_total ttfts h in
    let (within, beyond) = p95_coverage ttfts v f in
    (
      record { requests = length ttfts; p50 = m; p95 = v },
      rw (e, f) refl,
      record { requests = refl; middle = middle; within = within; beyond = beyond },
    )

-- The injections' figures: none where there was no injection.
abbrev pub DescribesAny : Option Percentiles → List ℕ → Type 0
DescribesAny none ttfts = ttfts ≡ []
DescribesAny (some p) ttfts = Describes p ttfts

inject_percentiles-DescribesAny :
    (ttfts : List ℕ)
    → (o : Option Percentiles) × (inject_percentiles ttfts ≡ ok o) × DescribesAny o ttfts
unfolding inject_percentiles
inject_percentiles-DescribesAny [] = (none, refl, refl)
inject_percentiles-DescribesAny (t ∷ ts) =
    let (p, e, d) = percentiles-Describes (t ∷ ts) (λ q. cc) in (some p, rw e refl, d)

-- With a finished chat turn the report is printed: its table holds the results, each once, its chat
-- figures describe the chat turns, and its injection figures the injections, where there are any.
pub chat_report_total :
    (es : List Entry)
    → chat_ttfts es ≢ []
    → (r : Report) × (report es ≡ ok (some r))
      × Perm r.table es
      × Describes r.chat (chat_ttfts es)
      × DescribesAny r.inject (inject_ttfts es)
unfolding report ttfts_if
chat_report_total [] h = absurd (h refl)
chat_report_total (e ∷ es) h =
    let (p, found, d) = percentiles-Describes (chat_ttfts (e ∷ es)) h in
    let (o, also, injected) = inject_percentiles-DescribesAny (inject_ttfts (e ∷ es)) in
    (
      record { table = sort_by entry_le (e ∷ es); chat = p; inject = o },
      rw (found, also) refl,
      sort_by-perm entry_le (e ∷ es),
      d,
      injected,
    )

-- With results and no finished chat turn, injections alone, the report raises instead.
pub report_raises :
    (es : List Entry) → es ≢ [] → chat_ttfts es ≡ [] → report es ≡ raised statistics_error
unfolding report double_median
report_raises [] some_one no_chat = absurd (some_one refl)
report_raises (e ∷ es) some_one no_chat = rw no_chat refl
