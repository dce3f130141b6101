-- ===== src/MetricsStub/Updates.antt =====
-- What a request to `/set` changes.
use mathlib.Core.Path.{subst}
use ai_infra_demo.Base.{◌≡◌, refl, sym, ap, ◌∙◌, ◌⊎◌, inl, inr, Option, none, some}
use ai_infra_demo.Base.Int.{ℤ}
use ai_infra_demo.Py.Result.{Result, ok, raised, Error, Result-cases}
use ai_infra_demo.Py.Text.{Text, codes}
use ai_infra_demo.Py.Json.{Json, Fields}
use ai_infra_demo.MetricsStub.{
  State, request_data, value_of, set_usage, set_waiting, respond, then_waiting, set_metrics,
}

-- The data have no value under this name and the old value is kept, or the new one is read from theirs.
abbrev pub Sets : {A : Type 0} → Text → (Json → Result A) → Json → A → A → Type 0
Sets name read values old new =
    ((value_of name values ≡ ok none) × (new ≡ old))
    ⊎ ((v : Json) × (value_of name values ≡ ok (some v)) × (read v ≡ ok new))

module _ {F : Type 0} (to_float : Json → Result F) (to_int : Json → Result ℤ) where
  -- `/set` up to its first conditional: the number of requests is kept, and the usage is set or
  -- nothing is.
  UsageDone : Json → State F → State F × Option Error → Type 0
  UsageDone values state (new, error) =
      (new.num_requests_waiting ≡ state.num_requests_waiting)
      × (((error ≡ none)
            × Sets (codes "kv") to_float values state.kv_cache_usage_perc new.kv_cache_usage_perc)
          ⊎ ((e : Error) × (error ≡ some e) × (new ≡ state)))

  set_usage-UsageDone :
      (values : Json) (state : State F) (o : Result (Option Json))
      → value_of (codes "kv") values ≡ o
      → UsageDone values state (set_usage to_float to_int o state)
  unfolding set_usage UsageDone
  set_usage-UsageDone values state (raised x) e = (refl, inr (x, refl, refl))
  set_usage-UsageDone values state (ok none) e = (refl, inl (refl, inl (e, refl)))
  set_usage-UsageDone values state (ok (some v)) e = elim (Result-cases (to_float v)) [
    | inl (f, g) ↦ rw g (refl, inl (refl, inr (v, e, g)))
    | inr (x, g) ↦ rw g (refl, inr (x, refl, refl))
  ]

  -- The rest: the usage is kept, and the number of requests is set or nothing is.
  WaitingDone : Json → State F → State F × Option Error → Type 0
  WaitingDone values state (new, error) =
      (new.kv_cache_usage_perc ≡ state.kv_cache_usage_perc)
      × (((error ≡ none)
            × Sets (codes "requests") to_int values state.num_requests_waiting
                new.num_requests_waiting)
          ⊎ ((e : Error) × (error ≡ some e) × (new ≡ state)))

  set_waiting-WaitingDone :
      (values : Json) (state : State F) (o : Result (Option Json))
      → value_of (codes "requests") values ≡ o
      → WaitingDone values state (set_waiting to_float to_int o state)
  unfolding set_waiting WaitingDone
  set_waiting-WaitingDone values state (raised x) e = (refl, inr (x, refl, refl))
  set_waiting-WaitingDone values state (ok none) e = (refl, inl (refl, inl (e, refl)))
  set_waiting-WaitingDone values state (ok (some v)) e = elim (Result-cases (to_int v)) [
    | inl (n, g) ↦ rw g (refl, inl (refl, inr (v, e, g)))
    | inr (x, g) ↦ rw g (refl, inr (x, refl, refl))
  ]

  -- A request that is answered has set what its data name, from the values there, and kept the rest;
  -- the answer is the new state.
  abbrev pub IsUpdated : Json → State F → State F → Type 0
  IsUpdated values state new =
      Sets (codes "kv") to_float values state.kv_cache_usage_perc new.kv_cache_usage_perc
      × Sets (codes "requests") to_int values state.num_requests_waiting new.num_requests_waiting

  -- One that raises has kept the number of requests, but may have set the usage.
  abbrev pub IsHalfUpdated : Json → State F → State F → Type 0
  IsHalfUpdated values state new =
      (new.num_requests_waiting ≡ state.num_requests_waiting)
      × ((new.kv_cache_usage_perc ≡ state.kv_cache_usage_perc)
          ⊎ Sets (codes "kv") to_float values state.kv_cache_usage_perc new.kv_cache_usage_perc)

  pub SetOrRaised : Json → State F → State F × Result (State F) → Type 0
  SetOrRaised values state (new, answer) =
      ((answer ≡ ok new) × IsUpdated values state new)
      ⊎ ((e : Error) × (answer ≡ raised e) × IsHalfUpdated values state new)

  after_waiting :
      (values : Json) (state mid : State F) (out : State F × Option Error)
      → mid.num_requests_waiting ≡ state.num_requests_waiting
      → Sets (codes "kv") to_float values state.kv_cache_usage_perc mid.kv_cache_usage_perc
      → WaitingDone values mid out
      → SetOrRaised values state (respond to_float to_int out)
  unfolding WaitingDone SetOrRaised
  after_waiting values state mid (new, none) kept sets (usage, inl (done, waiting)) = inl (
    refl,
    (
      subst (Sets (codes "kv") to_float values state.kv_cache_usage_perc) (sym usage) sets,
      subst (λ n. Sets (codes "requests") to_int values n new.num_requests_waiting) kept waiting,
    ),
  )
  after_waiting values state mid (new, none) kept sets (usage, inr (x, failed, same)) = cc
  after_waiting values state mid (new, some e) kept sets (usage, inl (done, waiting)) = cc
  after_waiting values state mid (new, some e) kept sets (usage, inr (x, failed, same)) = inr (
    e,
    refl,
    (
      ap (λ (s : State F). s.num_requests_waiting) same ∙ kept,
      inr (subst (Sets (codes "kv") to_float values state.kv_cache_usage_perc) (sym usage) sets),
    ),
  )

  after_usage :
      (values : Json) (state : State F) (mid : State F × Option Error)
      → UsageDone values state mid
      → SetOrRaised values state (then_waiting to_float to_int values mid)
  unfolding UsageDone SetOrRaised
  after_usage values state (mid, some e) (kept, inl (done, sets)) = cc
  after_usage values state (mid, some e) (kept, inr (x, failed, same)) =
      inr (e, refl, (kept, inl (ap (λ (s : State F). s.kv_cache_usage_perc) same)))
  after_usage values state (mid, none) (kept, inr (x, failed, same)) = cc
  after_usage values state (mid, none) (kept, inl (done, sets)) =
      after_waiting values state mid
        (set_waiting to_float to_int (value_of (codes "requests") values) mid) kept sets
        (set_waiting-WaitingDone values mid (value_of (codes "requests") values) refl)

  -- A request to `/set` answers with the state in which every value that the data name is set and every
  -- other kept. If it raises, the number of requests is kept, but the usage that the data name may
  -- have been set.
  pub set_metrics-SetOrRaised :
      (body : Option Json) (args : Fields) (state : State F)
      → SetOrRaised (request_data body args) state (set_metrics to_float to_int body args state)
  unfolding set_metrics
  set_metrics-SetOrRaised body args state = after_usage (request_data body args) state _ (
      set_usage-UsageDone (request_data body args) state
        (value_of (codes "kv") (request_data body args)) refl)
