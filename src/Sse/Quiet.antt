-- ===== src/Sse/Quiet.antt =====
-- The streaming loop talks to nobody: it sends no request and makes no pause.
use ai_infra_demo.Base.{◌≡◌, refl, ◌∙◌, not, ◌||◌, inl, inr, List, [], ◌∷◌, drop, Bool-cases}
use ai_infra_demo.Py.Result.{Result, ok, raised}
use ai_infra_demo.Py.Text.{Text, text_eq, starts_with, strip}
use ai_infra_demo.Effects.{Event, line, broken, Env, World, Action, and_then, perf_counter}
use ai_infra_demo.Sse.{
  data_prefix, done_mark, Flow, go_on, leave, resume, Reader, is_empty, handle_data, handle_text,
  handle_line, handle_event, sse_loop,
}

-- The second world differs from the first at most in its clock.
pub record IsQuiet (w u : World) : Type 0 where
  pub requests : u.requests ≡ w.requests
  pub sent : u.sent ≡ w.sent
  pub pauses : u.pauses ≡ w.pauses

pub IsQuiet-refl : (w : World) → IsQuiet w w
IsQuiet-refl w = record { requests = refl; sent = refl; pauses = refl }

pub IsQuiet-trans : (w u v : World) → IsQuiet w u → IsQuiet u v → IsQuiet w v
IsQuiet-trans w u v p q = record {
  requests = q.requests ∙ p.requests;
  sent = q.sent ∙ p.sent;
  pauses = q.pauses ∙ p.pauses;
}

pub and_then-IsQuiet :
    {A B : Type 0} (w : World) (m : Result A × World) (f : A → Action B)
    → IsQuiet w m.1
    → ((a : A) (u : World) → IsQuiet u (f a u).1)
    → IsQuiet w (and_then m f).1
and_then-IsQuiet w (ok a, u) f p k = IsQuiet-trans w u (f a u).1 p (k a u)
and_then-IsQuiet w (raised e, u) f p k = p

pub perf_counter-IsQuiet : (env : Env) (w : World) → IsQuiet w (perf_counter env w).1
unfolding perf_counter
perf_counter-IsQuiet env w = record { requests = refl; sent = refl; pauses = refl }

module _ (env : Env) {S : Type 0} (reader : Reader S) where
  handle_data-IsQuiet : (d : Text) (s : S) (w : World) → IsQuiet w (handle_data env reader d s w).1
  unfolding handle_data
  handle_data-IsQuiet d s w = elim (Bool-cases (text_eq d done_mark)) [
    | inl stop ↦ rw stop (
        and_then-IsQuiet w (perf_counter env w) _ (perf_counter-IsQuiet env w)
          λ t u. IsQuiet-refl u)
    | inr other ↦ rw other (
        and_then-IsQuiet w _ _ (IsQuiet-refl w) λ chunk u.
          and_then-IsQuiet u (perf_counter env u) _ (perf_counter-IsQuiet env u)
            λ now v. and_then-IsQuiet v _ _ (IsQuiet-refl v) λ token_text x. IsQuiet-refl x)
  ]

  handle_text-IsQuiet : (t : Text) (s : S) (w : World) → IsQuiet w (handle_text env reader t s w).1
  unfolding handle_text
  handle_text-IsQuiet t s w = elim (Bool-cases (is_empty t || not (starts_with t data_prefix))) [
    | inl skip ↦ rw skip (IsQuiet-refl w)
    | inr data_line ↦ rw data_line (handle_data-IsQuiet (drop 6 t) s w)
  ]

  handle_event-IsQuiet :
      (e : Event) (s : S) (w : World) → IsQuiet w (handle_event env reader e s w).1
  unfolding handle_event handle_line
  handle_event-IsQuiet broken s w = IsQuiet-refl w
  handle_event-IsQuiet (line raw) s w =
      and_then-IsQuiet w _ _ (IsQuiet-refl w) λ t u. handle_text-IsQuiet (strip t) s u

  pub sse_loop-IsQuiet :
      (es : List Event) (s : S) (w : World) → IsQuiet w (sse_loop env reader es s w).1
  unfolding sse_loop
  sse_loop-IsQuiet [] s w = IsQuiet-refl w
  sse_loop-IsQuiet (e ∷ es) s w =
      and_then-IsQuiet w (handle_event env reader e s w) (resume (sse_loop env reader es))
        (handle_event-IsQuiet e s w) (resume-IsQuiet (sse_loop-IsQuiet es))
    where
      resume-IsQuiet :
          ((s' : S) (u : World) → IsQuiet u (sse_loop env reader es s' u).1)
          → (flow : Flow S) (u : World) → IsQuiet u (resume (sse_loop env reader es) flow u).1
      resume-IsQuiet ih (go_on s') u = ih s' u
      resume-IsQuiet ih (leave s') u = IsQuiet-refl u
