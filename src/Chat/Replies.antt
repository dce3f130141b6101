-- ===== src/Chat/Replies.antt =====
-- What `run_inference` of the chat scripts sends, and when it gives a reply.
use ai_infra_demo.Base.{ℕ, ◌≡◌, refl, sym, ap, ◌∙◌, ◌⊎◌, inl, inr, arith, List}
use ai_infra_demo.Py.Result.{Error, Result, ok, raised, ◌>>=◌, map_ok}
use ai_infra_demo.Py.Text.{Text}
use ai_infra_demo.Py.Json.{Json, join}
use ai_infra_demo.Effects.{Event, Request, Env, World, and_then, events_of}
use ai_infra_demo.Sse.{chat_text}
use ai_infra_demo.Sse.Content.{texts}
use ai_infra_demo.Sse.Quiet.{IsQuiet, IsQuiet-refl, and_then-IsQuiet}
use ai_infra_demo.Inference.{Timed, timed_request}
use ai_infra_demo.Inference.Sent.{Sent, Sent-quiet, timed_request-Sent}
use ai_infra_demo.Inference.Texts.{timed_request-texts}
use ai_infra_demo.Chat.{Message, Inference, report, chat_request, chat_inference}

report-IsQuiet : (t : Timed) (w : World) → IsQuiet w (report t w).1
unfolding report
report-IsQuiet t w =
    and_then-IsQuiet w (join t.full_response, w) _ (IsQuiet-refl w) λ r u. IsQuiet-refl u

report-Sent :
    (req : Request) (w : World) (m : Result Timed × World)
    → Sent req w m.1
    → Sent req w (and_then m report).1
report-Sent req w (ok t, u) s = Sent-quiet req w u (report t u).1 s (report-IsQuiet t u)
report-Sent req w (raised e, u) s = s

abbrev reply : Result Inference × World → Result Text
reply m = map_ok (λ r. r.response_full) m.0

report-join : (t : Timed) (w : World) → reply (report t w) ≡ join t.full_response
unfolding report
report-join t w = ground arith

report-texts :
    (m : Result Timed × World)
    → reply (and_then m report) ≡ (map_ok (λ t. t.full_response) m.0 >>= join)
report-texts (ok t, w) = report-join t w
report-texts (raised e, w) = refl

bind_assoc :
    (r : Result (List Event)) (f : List Event → Result (List Json)) (g : List Json → Result Text)
    → ((r >>= f) >>= g) ≡ (r >>= λ es. f es >>= g)
bind_assoc (ok es) f g = refl
bind_assoc (raised e) f g = refl

-- The reply of the server to its q-th request, if that carries these messages: the texts of the stream
-- joined, or the exception of the connection, of the stream, or of the join.
abbrev pub answer : Env → ℕ → Text → Text → ℕ → List Message → Result Text
answer env max_tokens url model q messages =
    events_of (env.respond q (chat_request max_tokens url model messages)) >>= λ es.
    texts env chat_text es >>= join

-- A call that gives a reply, or raises as the server has it.
pub map_ok_cases :
    {A B : Type 0} (f : A → B) (r : Result A) (s : Result B)
    → map_ok f r ≡ s
    → ((e : Error) × (r ≡ raised e) × (s ≡ raised e)) ⊎ ((a : A) × (r ≡ ok a) × (s ≡ ok (f a)))
map_ok_cases f (ok a) s e = inr (a, refl, sym e)
map_ok_cases f (raised x) s e = inl (x, refl, sym e)

module _ (env : Env) (max_tokens : ℕ) (url model : Text) (messages : List Message) (w : World) where
  -- One call sends one request, with the messages that it is given.
  pub chat_inference-Sent :
      Sent
        (chat_request max_tokens url model messages)
        w
        (chat_inference env max_tokens url model messages w).1
  unfolding chat_inference
  chat_inference-Sent =
      let req = chat_request max_tokens url model messages in
      report-Sent req w (timed_request env chat_text req w) (timed_request-Sent env chat_text req w)

  -- A call replies as the server does to the next request.
  pub chat_inference-texts :
      map_ok (λ r. r.response_full) (chat_inference env max_tokens url model messages w).0
      ≡ answer env max_tokens url model w.requests messages
  unfolding chat_inference
  chat_inference-texts =
      let req = chat_request max_tokens url model messages in
      report-texts (timed_request env chat_text req w)
      ∙ ap (λ r. r >>= join) (timed_request-texts env chat_text req w)
      ∙ bind_assoc (events_of (env.respond w.requests req)) (texts env chat_text) join
