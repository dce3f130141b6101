-- ===== src/Sse/Timing.antt =====
-- The clock along the streaming loop: a rule for invariants over what a script keeps and the time.
use ai_infra_demo.Base.{
  ℕ, suc, ◌+◌, ◌≤◌, Bool, true, false, not, ◌||◌, inl, inr, List, [], ◌∷◌, drop, arith, Bool-cases,
  if◌then◌else◌,
}
use ai_infra_demo.Py.Result.{Result, ok, raised, or_raise, json_decode_error, unicode_decode_error}
use ai_infra_demo.Py.Text.{Text, text_eq, starts_with, strip, decode}
use ai_infra_demo.Py.Json.{Json, truthy}
use ai_infra_demo.Effects.{Event, line, broken, Env, World, Action, and_then, perf_counter}
use ai_infra_demo.Sse.{
  data_prefix, done_mark, Flow, go_on, leave, resume, Reader, is_empty, handle_data, handle_text,
  handle_line, handle_event, sse_loop,
}

-- What an action's result satisfies at the time when it is given; an exception satisfies it.
abbrev pub Ensures : {A : Type 0} → (A → ℕ → Type 0) → Result A × World → Type 0
Ensures Q (ok a, w) = Q a w.now
Ensures Q (raised e, w) = Unit

-- `Q` while the loop runs, `R` once `break` has left it.
abbrev pub OnFlow : {S : Type 0} → (S → ℕ → Type 0) → (S → ℕ → Type 0) → Flow S → ℕ → Type 0
OnFlow Q R (go_on s) t = Q s t
OnFlow Q R (leave s) t = R s t

-- A bind ensures what its second part ensures after any result of its first.
pub and_then-Ensures :
    {A B : Type 0} (P : A → ℕ → Type 0) (Q : B → ℕ → Type 0) (m : Result A × World)
    (f : A → Action B)
    → Ensures P m
    → ((a : A) (w : World) → P a w.now → Ensures Q (f a w))
    → Ensures Q (and_then m f)
and_then-Ensures P Q (ok a, w) f p k = k a w p
and_then-Ensures P Q (raised e, w) f p k = tt

-- A result that takes no time ensures what holds at the time.
pub result-Ensures :
    {A : Type 0} (P : ℕ → Type 0) (r : Result A) (w : World) → P w.now → Ensures (λ _. P) (r, w)
result-Ensures P (ok a) w p = p
result-Ensures P (raised e) w p = tt

module _ (env : Env) {S : Type 0} (reader : Reader S) (Q R : S → ℕ → Type 0)
    (later : (s : S) (t u : ℕ) → t ≤ u → Q s t → Q s u)
    (on_token : (s : S) (t : ℕ) (v : Json) → Q s t → Q (reader.token t v s) t)
    (on_finish : (s : S) (t : ℕ) → Q s t → R (reader.finish t s) t)
    (at_end : (s : S) (t : ℕ) → Q s t → R s t) where
  after_chunk :
      (s : S) (v : Json) (t : ℕ) → Q s t → (b : Bool) → Q (if b then reader.token t v s else s) t
  after_chunk s v t q true = on_token s t v q
  after_chunk s v t q false = q

  handle_data-Ensures :
      (d : Text) (s : S) (w : World)
      → Q s w.now
      → Ensures (OnFlow Q R) (handle_data env reader d s w)
  unfolding handle_data perf_counter
  handle_data-Ensures d s w q = elim (Bool-cases (text_eq d done_mark)) [
    | inl stop ↦ rw stop (on_finish s _ (later s w.now _ (omega arith) q))
    | inr other ↦ rw other (
        and_then-Ensures (λ _. Q s) (OnFlow Q R) _ _
          (result-Ensures (Q s) (or_raise json_decode_error (env.loads d)) w q)
          λ chunk u q'.
            let t : ℕ = u.now + env.gap u.readings in
            let u' : World = record u { now = t; readings = suc u.readings } in
            and_then-Ensures (λ _ x. t ≤ x) (OnFlow Q R) _ _
              (result-Ensures (λ x. t ≤ x) (reader.extract chunk) u' (omega arith))
              λ v x p.
                later _ t x.now p (after_chunk s v t (later s u.now t (omega arith) q') (truthy v)))
  ]

  handle_text-Ensures :
      (t : Text) (s : S) (w : World)
      → Q s w.now
      → Ensures (OnFlow Q R) (handle_text env reader t s w)
  unfolding handle_text
  handle_text-Ensures t s w q = elim (Bool-cases (is_empty t || not (starts_with t data_prefix))) [
    | inl skip ↦ rw skip q
    | inr data_line ↦ rw data_line (handle_data-Ensures (drop 6 t) s w q)
  ]

  handle_event-Ensures :
      (e : Event) (s : S) (w : World)
      → Q s w.now
      → Ensures (OnFlow Q R) (handle_event env reader e s w)
  unfolding handle_event handle_line
  handle_event-Ensures broken s w q = tt
  handle_event-Ensures (line raw) s w q =
      and_then-Ensures (λ _. Q s) (OnFlow Q R) _ _
        (result-Ensures (Q s) (or_raise unicode_decode_error (decode raw)) w q)
        λ t u q'. handle_text-Ensures (strip t) s u q'

  -- From an invariant of the running loop, what holds when the loop ends, by the end mark or with the
  -- last line.
  pub sse_loop-Ensures :
      (es : List Event) (s : S) (w : World) → Q s w.now → Ensures R (sse_loop env reader es s w)
  unfolding sse_loop
  sse_loop-Ensures [] s w q = at_end s w.now q
  sse_loop-Ensures (e ∷ es) s w q =
      and_then-Ensures (OnFlow Q R) R (handle_event env reader e s w)
        (resume (sse_loop env reader es)) (handle_event-Ensures e s w q)
        λ flow u p. resume-Ensures flow u p (λ s' x. sse_loop-Ensures es s' u x)
    where
      resume-Ensures :
          (flow : Flow S) (u : World)
          → OnFlow Q R flow u.now
          → ((s' : S) → Q s' u.now → Ensures R (sse_loop env reader es s' u))
          → Ensures R (resume (sse_loop env reader es) flow u)
      resume-Ensures (go_on s') u p k = k s' p
      resume-Ensures (leave s') u p k = p
