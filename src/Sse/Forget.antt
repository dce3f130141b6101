-- ===== src/Sse/Forget.antt =====
-- Two scripts that keep more and less of the same stream: what the second keeps is a function of
-- what the first keeps, at every step, so the loops end alike.
use ai_infra_demo.Base.{
  suc, ◌+◌, ℕ, ◌≡◌, refl, ap, ◌∙◌, Bool, true, false, not, ◌||◌, inl, inr, List, [], ◌∷◌, drop,
  Bool-cases, if◌then◌else◌,
}
use ai_infra_demo.Py.Result.{
  Result, ok, raised, map_ok, or_raise, json_decode_error, unicode_decode_error,
}
use ai_infra_demo.Py.Text.{Text, text_eq, starts_with, strip, decode}
use ai_infra_demo.Py.Json.{Json, truthy}
use ai_infra_demo.Effects.{Event, line, broken, Env, World, Action, and_then, perf_counter}
use ai_infra_demo.Sse.{
  data_prefix, done_mark, Flow, go_on, leave, resume, Reader, is_empty, handle_data, handle_text,
  handle_line, handle_event, sse_loop,
}

-- A result seen through a function.
abbrev pub map_action : {A B : Type 0} → (A → B) → Result A × World → Result B × World
map_action f (r, w) = (map_ok f r, w)

abbrev map_flow : {S S' : Type 0} → (S → S') → Flow S → Flow S'
map_flow f (go_on s) = go_on (f s)
map_flow f (leave s) = leave (f s)

pub and_then-map_action :
    {A A' B B' : Type 0} (f : A → A') (g : B → B') (m : Result A × World) (k : A → Action B)
    (k' : A' → Action B')
    → ((a : A) (w : World) → k' (f a) w ≡ map_action g (k a w))
    → and_then (map_action f m) k' ≡ map_action g (and_then m k)
and_then-map_action f g (ok a, w) k k' h = h a w
and_then-map_action f g (raised e, w) k k' h = refl

-- The same where the first parts are one.
pub and_then-same :
    {A B B' : Type 0} (g : B → B') (m : Result A × World) (k : A → Action B) (k' : A → Action B')
    → ((a : A) (w : World) → k' a w ≡ map_action g (k a w))
    → and_then m k' ≡ map_action g (and_then m k)
and_then-same g (ok a, w) k k' h = h a w
and_then-same g (raised e, w) k k' h = refl

module _ (env : Env) {S S' : Type 0} (extract : Json → Result Json) (token : ℕ → Json → S → S)
    (finish : ℕ → S → S) (token' : ℕ → Json → S' → S') (finish' : ℕ → S' → S') (forget : S → S')
    (on_token : (t : ℕ) (v : Json) (s : S) → token' t v (forget s) ≡ forget (token t v s))
    (on_finish : (t : ℕ) (s : S) → finish' t (forget s) ≡ forget (finish t s)) where
  abbrev more : Reader S
  more = record { extract = extract; token = token; finish = finish }

  abbrev less : Reader S'
  less = record { extract = extract; token = token'; finish = finish' }

  kept-forget :
      (b : Bool) (t : ℕ) (v : Json) (s : S)
      → (if b then token' t v (forget s) else forget s) ≡ forget (if b then token t v s else s)
  kept-forget true t v s = on_token t v s
  kept-forget false t v s = refl

  handle_data-forget :
      (d : Text) (s : S) (w : World)
      → handle_data env less d (forget s) w
        ≡ map_action (map_flow forget) (handle_data env more d s w)
  unfolding handle_data perf_counter
  handle_data-forget d s w = elim (Bool-cases (text_eq d done_mark)) [
    | inl stop ↦ rw stop (
        ap
          (λ (x : S'). (
            ok (leave x),
            record w { now = w.now + env.gap w.readings; readings = suc w.readings },
          ))
          (on_finish (w.now + env.gap w.readings) s))
    | inr other ↦ rw other (
        and_then-same (map_flow forget) (or_raise json_decode_error (env.loads d), w) _ _
          λ chunk u.
            let t : ℕ = u.now + env.gap u.readings in
            let u' : World = record u { now = t; readings = suc u.readings } in
            and_then-same (map_flow forget) (extract chunk, u') _ _
              λ v x. ap (λ (y : S'). (ok (go_on y), x)) (kept-forget (truthy v) t v s))
  ]

  handle_text-forget :
      (t : Text) (s : S) (w : World)
      → handle_text env less t (forget s) w
        ≡ map_action (map_flow forget) (handle_text env more t s w)
  unfolding handle_text
  handle_text-forget t s w = elim (Bool-cases (is_empty t || not (starts_with t data_prefix))) [
    | inl skip ↦ rw skip refl
    | inr data_line ↦ rw data_line (handle_data-forget (drop 6 t) s w)
  ]

  handle_event-forget :
      (e : Event) (s : S) (w : World)
      → handle_event env less e (forget s) w
        ≡ map_action (map_flow forget) (handle_event env more e s w)
  unfolding handle_event handle_line
  handle_event-forget broken s w = refl
  handle_event-forget (line raw) s w =
      and_then-same (map_flow forget) (or_raise unicode_decode_error (decode raw), w) _ _
        λ t u. handle_text-forget (strip t) s u

  pub sse_loop-forget :
      (es : List Event) (s : S) (w : World)
      → sse_loop env less es (forget s) w ≡ map_action forget (sse_loop env more es s w)
  unfolding sse_loop
  sse_loop-forget [] s w = refl
  sse_loop-forget (e ∷ es) s w =
      ap (λ m. and_then m (resume (sse_loop env less es))) (handle_event-forget e s w)
      ∙ and_then-map_action (map_flow forget) forget (handle_event env more e s w)
          (resume (sse_loop env more es)) (resume (sse_loop env less es))
          (λ flow u. resumed flow u (λ s' x. sse_loop-forget es s' x))
    where
      resumed :
          (flow : Flow S) (u : World)
          → ((s' : S) (x : World)
              → sse_loop env less es (forget s') x ≡ map_action forget (sse_loop env more es s' x))
          → resume (sse_loop env less es) (map_flow forget flow) u
            ≡ map_action forget (resume (sse_loop env more es) flow u)
      resumed (go_on s') u k = k s' u
      resumed (leave s') u k = refl
