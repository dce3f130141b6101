-- ===== src/Inference/Texts.antt =====
-- What a request receives depends on the server's lines alone.
use mathlib.Core.List.{foldl, append-nil, append_assoc}
use ai_infra_demo.Base.{
  ℕ, ◌≡◌, refl, sym, ap, ◌∙◌, List, [], ◌∷◌, ◌++◌, ◌==◌, Bool-cases, Option-cases, ◌+◌, inl, inr,
}
use ai_infra_demo.Py.Result.{Result, ok, raised, ◌>>=◌, map_ok}
use ai_infra_demo.Py.Json.{Json}
use ai_infra_demo.Effects.{Request, Event, Env, World, and_then, perf_counter, urlopen, events_of}
use ai_infra_demo.Sse.{sse_loop}
use ai_infra_demo.Sse.Content.{texts, sse_loop-texts}
use ai_infra_demo.Inference.{
  Stream, no_tokens, stream_reader, or_now, Timed, finish_request, receive, timed_request,
}

abbrev snoc : List Json → Json → List Json
snoc vs v = vs ++ v ∷ []

foldl-snoc : (xs vs : List Json) → foldl snoc xs vs ≡ xs ++ vs
foldl-snoc xs [] = sym (append-nil xs)
foldl-snoc xs (v ∷ vs) = foldl-snoc (xs ++ v ∷ []) vs ∙ append_assoc xs (v ∷ []) vs

map_ok-foldl : (r : Result (List Json)) → map_ok (foldl snoc []) r ≡ r
map_ok-foldl (ok vs) = ap ok (foldl-snoc [] vs)
map_ok-foldl (raised e) = refl

abbrev received : Result Timed × World → Result (List Json)
received m = map_ok (λ t. t.full_response) m.0

module _ (env : Env) where
  finish_request-texts :
      (sent : ℕ) (s : Stream) (w : World)
      → received (finish_request env sent s w) ≡ ok s.full_response
  unfolding finish_request perf_counter
  finish_request-texts sent s w = elim (Option-cases s.t_done) [
    | inl unfinished ↦ rw (unfinished, or_now) refl
    | inr (t, at) ↦ elim (Bool-cases (t == 0)) [
      | inl origin ↦ rw (at, or_now, origin) refl
      | inr later ↦ rw (at, or_now, later) refl
    ]
  ]

  finish-texts :
      (sent : ℕ) (m : Result Stream × World)
      → received (and_then m (finish_request env sent)) ≡ map_ok (λ s. s.full_response) m.0
  finish-texts sent (ok s, w) = finish_request-texts sent s w
  finish-texts sent (raised e, w) = refl

  receive-texts :
      (extract : Json → Result Json) (sent : ℕ) (es : List Event) (w : World)
      → received (receive env extract sent es w) ≡ texts env extract es
  unfolding receive
  receive-texts extract sent es w =
      finish-texts sent (sse_loop env (stream_reader extract) es no_tokens w)
      ∙ sse_loop-texts env (stream_reader extract) (λ s. s.full_response) snoc (λ t v s. refl)
          (λ t s. refl) es no_tokens w
      ∙ map_ok-foldl (texts env extract es)

  open-texts :
      (extract : Json → Result Json) (sent : ℕ) (r : Result (List Event)) (w : World)
      → received (and_then (r, w) (receive env extract sent)) ≡ (r >>= texts env extract)
  open-texts extract sent (ok es) w = receive-texts extract sent es w
  open-texts extract sent (raised e) w = refl

  -- A request gives the non-empty texts of the chunks up to the end mark, in order. It raises exactly
  -- the exception of the connection, or the first one that a line before the end mark causes.
  pub timed_request-texts :
      (extract : Json → Result Json) (req : Request) (w : World)
      → map_ok (λ t. t.full_response) (timed_request env extract req w).0
        ≡ (events_of (env.respond w.requests req) >>= texts env extract)
  unfolding timed_request perf_counter urlopen
  timed_request-texts extract req w =
      open-texts extract (w.now + env.gap w.readings) (events_of (env.respond w.requests req)) _
