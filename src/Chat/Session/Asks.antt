-- ===== src/Chat/Session/Asks.antt =====
-- What a chat session sends.
use mathlib.Core.List.{append_assoc, append-nil}
use ai_infra_demo.Base.{
  ℕ, true, false, ◌⊎◌, suc, ◌≡◌, refl, sym, ap, ◌∙◌, Bool, ◌&&◌, List, [], ◌∷◌, ◌++◌, map,
  Bool-cases, inl, inr,
}
use ai_infra_demo.Base.Int.{pos, ltb_ℤ}
use ai_infra_demo.Py.Result.{Result, ok, raised}
use ai_infra_demo.Py.Text.{Text}
use ai_infra_demo.Py.Slices.{minus_one}
use ai_infra_demo.Effects.{Request, Env, World, Action, and_then, wait}
use ai_infra_demo.Chat.{Message, user, assistant, Inference, chat_request, chat_inference}
use ai_infra_demo.Chat.Replies.{chat_inference-Sent}
use ai_infra_demo.Chat.Prompts.{prompts}
use ai_infra_demo.Chat.Session.{SessionArgs, pause, next_turn, session_loop}

abbrev pub IsNoRequest : World → World → Type 0
IsNoRequest w u = (u.sent ≡ w.sent) × (u.requests ≡ w.requests)

abbrev pub asked : List (Text × Text) → List Text
asked turns = map (λ (t : Text × Text). t.0) turns

-- The questions asked are the first of the list, and what was sent are their prompts.
abbrev pub Asks : ℕ → Text → Text → List Text → List Message → World → World → Type 0
Asks max_tokens url model questions history w u =
    (done : List (Text × Text)) × (rest : List Text) × (questions ≡ asked done ++ rest)
    × (u.sent ≡ w.sent ++ map (chat_request max_tokens url model) (prompts history done))

pause-IsNoRequest :
    (args : SessionArgs) (i : ℕ) (w : World)
    → (u : World) × IsNoRequest w u × (pause args i w ≡ (ok tt, u))
unfolding pause wait
pause-IsNoRequest args i w =
    elim (Bool-cases (ltb_ℤ (pos 0) args.think_time && ltb_ℤ (pos i) (minus_one args.max_turns))) [
      | inl rest ↦
          (record w { pauses = w.pauses ++ args.think_time ∷ [] }, (refl, refl), rw rest refl)
      | inr none ↦ (w, (refl, refl), rw none refl)
    ]

module _ (env : Env) (is_set : ℕ → Bool) (max_tokens : ℕ) (args : SessionArgs) {R : Type 0}
    (make_row : ℕ → Inference → List Message → R) where
  abbrev request : List Message → Request
  request = chat_request max_tokens args.url args.model

  -- After the reply: the session ends, or goes on from a world that has sent nothing more.
  pub next_turn_cases :
      (i : ℕ) (rest : List Message → List R → Action (List R)) (messages : List Message)
      (rows : List R) (result : Inference) (w : World)
      → let answered = messages ++ assistant result.response_full ∷ [] in
        let rows' = rows ++ make_row i result answered ∷ [] in
        ((is_set i ≡ true)
          × (next_turn env is_set max_tokens args make_row i rest messages rows result w
              ≡ (ok rows', w)))
        ⊎ ((is_set i ≡ false)
            × (u : World) × IsNoRequest w u
            × (next_turn env is_set max_tokens args make_row i rest messages rows result w
                ≡ rest answered rows' u))
  unfolding next_turn
  next_turn_cases i rest messages rows result w = elim (Bool-cases (is_set i)) [
    | inl stop ↦ inl (stop, rw stop refl)
    | inr more ↦
        let answered = messages ++ assistant result.response_full ∷ [] in
        let rows' = rows ++ make_row i result answered ∷ [] in
        let (u, quiet, e) = pause-IsNoRequest args i w in
        inr (more, u, quiet, rw more (ap (λ m. and_then m (λ _. rest answered rows')) e))
  ]

  -- One more turn in front of what the rest of the session asks.
  Asks-cons :
      (q a : Text) (rest : List Text) (history : List Message) (w u v : World)
      → u.sent ≡ w.sent ++ request (history ++ user q ∷ []) ∷ []
      → Asks max_tokens args.url args.model rest ((history ++ user q ∷ []) ++ assistant a ∷ []) u v
      → Asks max_tokens args.url args.model (q ∷ rest) history w v
  unfolding prompts
  Asks-cons q a rest history w u v s (done, left, e, sent) = (
    (q, a) ∷ done,
    left,
    ap (◌∷◌ q) e,
    sent ∙ rw s (append_assoc w.sent (request (history ++ user q ∷ []) ∷ []) _),
  )

  -- The last turn of a session, whether it is answered or not.
  Asks-final :
      (q a : Text) (rest : List Text) (history : List Message) (w u : World)
      → u.sent ≡ w.sent ++ request (history ++ user q ∷ []) ∷ []
      → Asks max_tokens args.url args.model (q ∷ rest) history w u
  unfolding prompts
  Asks-final q a rest history w u s = ((q, a) ∷ [], rest, refl, s)

  after_reply-Asks :
      (i : ℕ) (q : Text) (rest : List Text) (history : List Message) (rows : List R) (w : World)
      (m : Result Inference × World)
      → m.1.sent ≡ w.sent ++ request (history ++ user q ∷ []) ∷ []
      → ((h : List Message) (r : List R) (u : World)
          → Asks max_tokens args.url args.model rest h u
              (session_loop env is_set max_tokens args make_row (suc i) rest h r u).1)
      → Asks max_tokens args.url args.model
          (q ∷ rest)
          history
          w
          (and_then m (
            next_turn env is_set max_tokens args make_row i
              (session_loop env is_set max_tokens args make_row (suc i) rest)
              (history ++ user q ∷ [])
              rows)).1
  after_reply-Asks i q rest history rows w (raised e, u) sent ih =
      Asks-final q [] rest history w u sent
  after_reply-Asks i q rest history rows w (ok result, u) sent ih =
      let messages = history ++ user q ∷ [] in
      let answered = λ (r : Inference). messages ++ assistant r.response_full ∷ [] in
      let told = λ (r : Inference). rows ++ make_row i r (answered r) ∷ [] in
      elim (next_turn_cases i (session_loop env is_set max_tokens args make_row (suc i) rest)
        messages rows result u) [
          | inl (_, e) ↦ rw e (Asks-final q result.response_full rest history w u sent)
          | inr (_, v, quiet, e) ↦ rw e (
              Asks-cons q result.response_full rest history w v
                (session_loop env is_set max_tokens args make_row (suc i) rest (answered result)
                  (told result) v).1
                (quiet.0 ∙ sent) (ih (answered result) (told result) v))
        ]

  -- A session asks the first of its questions, each with the whole conversation before it.
  pub session_loop-Asks :
      (i : ℕ) (questions : List Text) (history : List Message) (rows : List R) (w : World)
      → Asks max_tokens args.url args.model questions history w
          (session_loop env is_set max_tokens args make_row i questions history rows w).1
  unfolding session_loop prompts
  session_loop-Asks i [] history rows w = ([], [], refl, sym (append-nil w.sent))
  session_loop-Asks i (q ∷ rest) history rows w =
      after_reply-Asks i q rest history rows w
        (chat_inference env max_tokens args.url args.model (history ++ user q ∷ []) w)
        (chat_inference-Sent env max_tokens args.url args.model (history ++ user q ∷ []) w).sent
        (session_loop-Asks (suc i) rest)
