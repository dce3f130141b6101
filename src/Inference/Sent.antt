-- ===== src/Inference/Sent.antt =====
-- A request is sent once, whatever becomes of it.
use ai_infra_demo.Base.{
  ℕ, suc, ◌+◌, ◌≡◌, refl, ◌∙◌, List, [], ◌∷◌, ◌++◌, Bool-cases, inl, inr, Option, none, some, ◌==◌,
}
use ai_infra_demo.Py.Result.{Result}
use ai_infra_demo.Py.Json.{Json}
use ai_infra_demo.Effects.{Event, Request, Env, World, perf_counter, urlopen, events_of}
use ai_infra_demo.Sse.{sse_loop}
use ai_infra_demo.Sse.Quiet.{
  IsQuiet, IsQuiet-refl, and_then-IsQuiet, perf_counter-IsQuiet, sse_loop-IsQuiet,
}
use ai_infra_demo.Inference.{
  no_tokens, stream_reader, or_now, finish_request, receive, timed_request,
}

-- The second world has sent one more request than the first, and made no pause.
pub record Sent (req : Request) (w u : World) : Type 0 where
  pub requests : u.requests ≡ suc w.requests
  pub sent : u.sent ≡ w.sent ++ req ∷ []
  pub pauses : u.pauses ≡ w.pauses

pub Sent-quiet : (req : Request) (w u v : World) → Sent req w u → IsQuiet u v → Sent req w v
Sent-quiet req w u v s q = record {
  requests = q.requests ∙ s.requests;
  sent = q.sent ∙ s.sent;
  pauses = q.pauses ∙ s.pauses;
}

module _ (env : Env) where
  or_now-IsQuiet : (o : Option ℕ) (w : World) → IsQuiet w (or_now env o w).1
  or_now-IsQuiet none w = perf_counter-IsQuiet env w
  or_now-IsQuiet (some t) w = elim (Bool-cases (t == 0)) [
    | inl origin ↦ rw origin (perf_counter-IsQuiet env w)
    | inr later ↦ rw later (IsQuiet-refl w)
  ]

  receive-IsQuiet :
      (extract : Json → Result Json) (sent : ℕ) (es : List Event) (w : World)
      → IsQuiet w (receive env extract sent es w).1
  unfolding receive finish_request
  receive-IsQuiet extract sent es w =
      and_then-IsQuiet w (sse_loop env (stream_reader extract) es no_tokens w) _
        (sse_loop-IsQuiet env (stream_reader extract) es no_tokens w)
        λ s u.
          and_then-IsQuiet u (or_now env s.t_done u) _ (or_now-IsQuiet s.t_done u)
            λ t v. IsQuiet-refl v

  pub timed_request-Sent :
      (extract : Json → Result Json) (req : Request) (w : World)
      → Sent req w (timed_request env extract req w).1
  unfolding timed_request perf_counter urlopen
  timed_request-Sent extract req w =
      let t = w.now + env.gap w.readings in
      let u : World = record w {
        now = t;
        readings = suc w.readings;
        requests = suc w.requests;
        sent = w.sent ++ req ∷ [];
      } in
      Sent-quiet req w u _ (record { requests = refl; sent = refl; pauses = refl })
        (and_then-IsQuiet u (events_of (env.respond w.requests req), u) (receive env extract t)
          (IsQuiet-refl u) λ es v. receive-IsQuiet extract t es v)
