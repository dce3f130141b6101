-- ===== src/Chat/Session/Conversation.antt =====
-- A chat session against the replies of the server, apart from the clock, the rows and the pauses.
use mathlib.Core.Path.{subst}
use mathlib.Core.List.{append_assoc, append-nil}
use ai_infra_demo.Base.{
  ℕ, suc, ◌≡◌, sym, ◌∙◌, inl, inr, Bool, true, false, List, [], ◌∷◌, ◌++◌, map, if◌then◌else◌,
}
use ai_infra_demo.Py.Result.{Result, ok, raised, map_ok}
use ai_infra_demo.Py.Text.{Text}
use ai_infra_demo.Effects.{Request, Env, World, and_then}
use ai_infra_demo.Chat.{Message, user, assistant, Inference, chat_request, chat_inference}
use ai_infra_demo.Chat.Replies.{answer, chat_inference-Sent, chat_inference-texts}
use ai_infra_demo.Chat.Session.{SessionArgs, next_turn, session_loop}
use ai_infra_demo.Chat.Session.Asks.{next_turn_cases}
use ai_infra_demo.Chat.Prompts.{IsGrowing}

-- After a reply the next question is asked, unless the event is set; after a failure none is.
abbrev pub follow_up : Bool → (Text → List (List Message)) → Result Text → List (List Message)
follow_up stopped next (raised e) = []
follow_up stopped next (ok reply) = if stopped then [] else next reply

module _ (env : Env) (is_set : ℕ → Bool) (max_tokens : ℕ) (url model : Text) where
  -- The lists of messages sent for these questions from turn i + 1 on, where the server has had q requests:
  -- to each question the reply of the server is added, and the next question.
  unfoldable pub conversation : ℕ → ℕ → List Message → List Text → List (List Message)
  conversation i q history [] = []
  conversation i q history (question ∷ rest) =
      let messages = history ++ user question ∷ [] in
      messages
      ∷ follow_up (is_set i)
          (λ reply. conversation (suc i) (suc q) (messages ++ assistant reply ∷ []) rest)
          (answer env max_tokens url model q messages)

module _ (env : Env) (is_set : ℕ → Bool) (max_tokens : ℕ) (args : SessionArgs) {R : Type 0}
    (make_row : ℕ → Inference → List Message → R) where
  abbrev request : List Message → Request
  request = chat_request max_tokens args.url args.model

  abbrev Sends : World → List (List Message) → World → Type 0
  Sends w asked v = v.sent ≡ w.sent ++ map request asked

  abbrev spoken : ℕ → ℕ → List Message → List Text → List (List Message)
  spoken = conversation env is_set max_tokens args.url args.model

  first_sent :
      (messages : List Message) (asked : List (List Message)) (w u v : World)
      → u.sent ≡ w.sent ++ request messages ∷ []
      → Sends u asked v
      → Sends w (messages ∷ asked) v
  first_sent messages asked w u v e s = s ∙ rw e (append_assoc w.sent (request messages ∷ []) _)

  after_reply :
      (i : ℕ) (rest : List Text) (messages : List Message) (rows : List R) (w : World)
      (a : Result Text) (m : Result Inference × World)
      → map_ok (λ (r : Inference). r.response_full) m.0 ≡ a
      → m.1.requests ≡ suc w.requests
      → m.1.sent ≡ w.sent ++ request messages ∷ []
      → ((h : List Message) (r : List R) (u : World)
          → Sends u
              (spoken (suc i) u.requests h rest)
              (session_loop env is_set max_tokens args make_row (suc i) rest h r u).1)
      → Sends w
          (messages
            ∷ follow_up
                (is_set i)
                (λ reply. spoken (suc i) (suc w.requests) (messages ++ assistant reply ∷ []) rest)
                a)
          (and_then m (
            next_turn env is_set max_tokens args make_row i
              (session_loop env is_set max_tokens args make_row (suc i) rest)
              messages
              rows)).1
  after_reply i rest messages rows w a (raised e, u) reply count sent ih = rw (sym reply) sent
  after_reply i rest messages rows w a (ok result, u) reply count sent ih =
      elim (next_turn_cases env is_set max_tokens args make_row i
        (session_loop env is_set max_tokens args make_row (suc i) rest) messages rows result u) [
          | inl (stop, e) ↦ rw (e, sym reply, stop) sent
          | inr (more, v, quiet, e) ↦
              rw (e, sym reply, more)
                (let answered = messages ++ assistant result.response_full ∷ [] in
                  let told = rows ++ make_row i result answered ∷ [] in
                  let last =
                    (session_loop env is_set max_tokens args make_row (suc i) rest answered told
                      v).1 in
                  first_sent messages (spoken (suc i) (suc w.requests) answered rest) w v last
                    (quiet.0 ∙ sent)
                    (subst (λ q. Sends v (spoken (suc i) q answered rest) last) (quiet.1 ∙ count)
                      (ih answered told v)))
        ]

  -- A session sends what the replies of the server to its requests make of its questions.
  pub session_loop-conversation :
      (i : ℕ) (questions : List Text) (history : List Message) (rows : List R) (w : World)
      → Sends w
          (spoken i w.requests history questions)
          (session_loop env is_set max_tokens args make_row i questions history rows w).1
  unfolding session_loop conversation
  session_loop-conversation i [] history rows w = sym (append-nil w.sent)
  session_loop-conversation i (q ∷ rest) history rows w =
      let messages = history ++ user q ∷ [] in
      let s = chat_inference-Sent env max_tokens args.url args.model messages w in
      after_reply i rest messages rows w _
        (chat_inference env max_tokens args.url args.model messages w)
        (chat_inference-texts env max_tokens args.url args.model messages w) s.requests s.sent
        (session_loop-conversation (suc i) rest)

module _ (env : Env) (is_set : ℕ → Bool) (max_tokens : ℕ) (url model : Text) where
  abbrev said : ℕ → ℕ → List Message → List Text → List (List Message)
  said = conversation env is_set max_tokens url model

  -- A conversation behind the list that its history answers.
  behind :
      (i q : ℕ) (messages : List Message) (reply : Text) (rest : List Text)
      → IsGrowing (said i q (messages ++ assistant reply ∷ []) rest)
      → IsGrowing (messages ∷ said i q (messages ++ assistant reply ∷ []) rest)
  unfolding conversation
  behind i q messages reply [] growing = tt
  behind i q messages reply (question ∷ rest) growing = (
    (reply, question, append_assoc messages (assistant reply ∷ []) (user question ∷ [])),
    growing,
  )

  follow_up-IsGrowing :
      (stopped : Bool) (messages : List Message) (next : Text → List (List Message))
      (r : Result Text)
      → ((reply : Text) → IsGrowing (messages ∷ next reply))
      → IsGrowing (messages ∷ follow_up stopped next r)
  follow_up-IsGrowing stopped messages next (raised e) h = tt
  follow_up-IsGrowing true messages next (ok reply) h = tt
  follow_up-IsGrowing false messages next (ok reply) h = h reply

  pub conversation-IsGrowing :
      (i q : ℕ) (history : List Message) (questions : List Text)
      → IsGrowing (said i q history questions)
  unfolding conversation
  conversation-IsGrowing i q history [] = tt
  conversation-IsGrowing i q history (question ∷ rest) =
      follow_up-IsGrowing (is_set i) (history ++ user question ∷ []) _ _ λ reply.
        behind (suc i) (suc q) (history ++ user question ∷ []) reply rest (
          conversation-IsGrowing (suc i) (suc q)
            ((history ++ user question ∷ []) ++ assistant reply ∷ []) rest)
