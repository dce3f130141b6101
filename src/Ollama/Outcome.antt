-- ===== src/Ollama/Outcome.antt =====
-- What a measurement of the Ollama server ends with.
use mathlib.Core.Path.{subst}
use ai_infra_demo.Base.{
  ℕ, suc, arith, ◌≤◌, ◌<◌, ◌+◌, ◌-◌, ◌≡◌, refl, ◌⊎◌, inl, inr, true, false, Option, none, some,
  List, [], ◌++◌, take, Bool-cases, ◌==◌,
}
use ai_infra_demo.Py.Result.{
  Result, ok, raised, ◌>>=◌, map_ok, Result-cases, unbound_local_error, zero_division_error,
}
use ai_infra_demo.Py.Text.{Text, codes}
use ai_infra_demo.Py.Json.{Json, join}
use ai_infra_demo.Effects.{Event, Env, World, and_then, perf_counter, urlopen, events_of}
use ai_infra_demo.Inference.{Stream, no_tokens}
use ai_infra_demo.Ollama.{
  ollama_request, chunk_loop, token_reader, with_t_done, ollama_figures, OllamaMeasurement,
  ollama_inference,
}
use ai_infra_demo.Ollama.Ticks.{done_time, IsDoneAt, chunk_loop-IsDoneAt}
use ai_infra_demo.Ollama.Parts.{Parts, parts, is_some, parts_of, Adds, chunk_loop-Adds}

abbrev pub preview_of : List Json → Result Text
preview_of vs = join vs >>= λ t. ok (take 120 t ++ codes "...")

-- What the parts of a response, and the time of its last chunk, make of a measurement that began at t0.
abbrev pub Outcome : ℕ → Result Parts → Option ℕ → Result OllamaMeasurement → Type 0
Outcome t0 (raised e) o r = r ≡ raised e
Outcome t0 (ok (vs, false)) o r = r ≡ raised unbound_local_error
Outcome t0 (ok (vs, true)) o r =
    (t : ℕ) × (o ≡ some t)
    × (((t ≤ t0) × (r ≡ raised zero_division_error))
        ⊎ ((t0 < t) × (map_ok (λ m. m.response_preview) r ≡ preview_of vs)))

figures-Outcome :
    (t0 : ℕ) (o : Option ℕ) (s : Stream)
    → Outcome t0 (ok (s.full_response, is_some o)) o (with_t_done o (λ t. ollama_figures t0 t s))
unfolding ollama_figures
figures-Outcome t0 none s = refl
figures-Outcome t0 (some t) s = (
  t,
  refl,
  elim (Bool-cases (t - t0 == 0)) [
    | inl at_once ↦ inl (ground arith, rw at_once refl)
    | inr later ↦ inr (
      ground arith,
      elim (Result-cases (join s.full_response)) [
        | inl (text, e) ↦ rw (later, e) refl
        | inr (x, e) ↦ rw (later, e) refl
      ],
    )
  ],
)

abbrev ended : ℕ → Result Stream × World → Result OllamaMeasurement
ended t0 m = (and_then m (λ s w. (with_t_done s.t_done (λ t. ollama_figures t0 t s), w))).0

ok-injective : (p q : Parts) → ok p ≡ ok q → p ≡ q
ok-injective p q e = cc

ended-Outcome :
    (env : Env) (t0 : ℕ) (r : Result Parts) (o : Option ℕ) (m : Result Stream × World)
    → Adds ([], false) r m
    → IsDoneAt env o m
    → Outcome t0 r o (ended t0 m)
ended-Outcome env t0 (ok q) o (ok s, w) e d =
    subst (λ (p : Parts). Outcome t0 (ok p) o (with_t_done s.t_done (λ t. ollama_figures t0 t s)))
      (ok-injective (parts_of s) q e)
      (subst
        (λ (x : Option ℕ).
          Outcome t0 (ok (parts_of s)) x (with_t_done s.t_done (λ t. ollama_figures t0 t s)))
        d (figures-Outcome t0 s.t_done s))
ended-Outcome env t0 (ok q) o (raised x, w) e d = cc
ended-Outcome env t0 (raised y) o (ok s, w) e d = cc
ended-Outcome env t0 (raised y) o (raised x, w) e d = cc

-- The time of the last chunk of a response that is opened after n readings of the clock.
abbrev pub done_in : Env → ℕ → ℕ → Result (List Event) → Option ℕ
done_in env now n (ok es) = done_time env es now n none
done_in env now n (raised e) = none

-- A measurement raises the exception of the connection or the first that a line causes. Where no
-- chunk said `done` it raises UnboundLocalError, though every line was read. Otherwise it raises
-- ZeroDivisionError where no time has passed from the first reading of the clock to the last chunk
-- that said `done`, and where some has, it previews the joined texts of the other chunks, or raises
-- as the join does.
pub ollama_inference-Outcome :
    (env : Env) (prompt : Text) (w : World)
    → Outcome
        (w.now + env.gap w.readings)
        (events_of (env.respond w.requests (ollama_request prompt)) >>= parts env)
        (done_in env
          (w.now + env.gap w.readings)
          (suc w.readings)
          (events_of (env.respond w.requests (ollama_request prompt))))
        (ollama_inference env prompt w).0
unfolding ollama_inference perf_counter urlopen
ollama_inference-Outcome env prompt w =
    opened_outcome (w.now + env.gap w.readings)
      (events_of (env.respond w.requests (ollama_request prompt)))
      (urlopen env (ollama_request prompt) (perf_counter env w).1).1
  where
    opened_outcome :
        (t0 : ℕ) (r : Result (List Event)) (u : World)
        → Outcome t0
            (r >>= parts env)
            (done_in env u.now u.readings r)
            (and_then
              (r, u)
              λ es v.
                and_then
                  (chunk_loop env token_reader es no_tokens v)
                  λ s x. (with_t_done s.t_done (λ t. ollama_figures t0 t s), x)).0
    opened_outcome t0 (ok es) u =
        ended-Outcome env t0 (parts env es) _ (chunk_loop env token_reader es no_tokens u)
          (chunk_loop-Adds env es no_tokens u) (chunk_loop-IsDoneAt env es no_tokens u)
    opened_outcome t0 (raised e) u = refl
