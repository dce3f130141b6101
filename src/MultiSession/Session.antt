-- ===== src/MultiSession/Session.antt =====
-- What a chat session sends and what it reports.
use ai_infra_demo.Base.{
  ℕ, suc, ◌+◌, ◌≤◌, ◌<◌, ◌≡◌, ap, Bool, List, [], ◌∷◌, map, ◌++◌, length, arith,
}
use ai_infra_demo.Py.Result.{Result, ok, raised}
use ai_infra_demo.Py.Slices.{slice_to}
use ai_infra_demo.Effects.{Env, World}
use ai_infra_demo.Chat.{system_message, chat_request}
use ai_infra_demo.Chat.Prompts.{IsGrowing}
use ai_infra_demo.Chat.Session.{SessionArgs}
use ai_infra_demo.Chat.Session.Asks.{Asks, session_loop-Asks}
use ai_infra_demo.Chat.Session.Conversation.{
  conversation, conversation-IsGrowing, session_loop-conversation,
}
use ai_infra_demo.Chat.Session.Rows.{turns_until, IsMade, Reports, session_loop-Reports}
use ai_infra_demo.MultiSession.{Row, row, run_chat_session}
use ai_infra_demo.MultiSession.Turns.{turns}

-- Rows of one session from turn i + 1 on, of a conversation with m messages before them.
abbrev pub IsNumbered : ℕ → ℕ → ℕ → List Row → Type 0
IsNumbered session i m [] = Unit
IsNumbered session i m (r ∷ rs) =
    (r.session ≡ session)
    × (r.turn ≡ suc i)
    × (r.prompt_messages ≡ m + 1)
    × IsNumbered session (suc i) (m + 2) rs

IsMade-IsNumbered :
    (session i m : ℕ) (rows : List Row)
    → IsMade (row session) i m rows
    → IsNumbered session i m rows
IsMade-IsNumbered session i m [] made = tt
IsMade-IsNumbered session i m (r ∷ rs) ((result, messages, len, e), made) = (
  ap (λ (x : Row). x.session) e,
  ap (λ (x : Row). x.turn) e,
  rw e (omega arith),
  IsMade-IsNumbered session (suc i) (m + 2) rs made,
)

-- The outcome of a session with n questions.
abbrev pub Numbers : (ℕ → Bool) → ℕ → ℕ → World → Result (List Row) × World → Type 0
Numbers is_set session n w (ok rows, u) =
    IsNumbered session 0 1 rows
    × (length rows ≡ turns_until is_set 0 n)
    × (u.requests ≡ w.requests + length rows)
Numbers is_set session n w (raised e, u) =
    (w.requests < u.requests) × (u.requests ≤ w.requests + turns_until is_set 0 n)

Reports-Numbers :
    (is_set : ℕ → Bool) (session n : ℕ) (w : World) (out : Result (List Row) × World)
    → Reports is_set (row session) 0 1 n [] w out
    → Numbers is_set session n w out
Reports-Numbers is_set session n w (ok rows, u) (new, e, made, count, sent) =
    rw e (IsMade-IsNumbered session 0 1 new made, count, sent)
Reports-Numbers is_set session n w (raised e, u) bounds = bounds

module _ (env : Env) (is_set : ℕ → Bool) (args : SessionArgs) (w : World) where
  -- A session that ends reports one row for each turn up to the first that finds the event set,
  -- turn k with k in `turn` and 2 * k in `prompt_messages`, and has sent as many requests. One that
  -- raises has sent the request that raised and no more than these.
  pub run_chat_session-Numbers :
      Numbers is_set args.session_id
        (length (slice_to args.max_turns turns))
        w
        (run_chat_session env is_set args w)
  unfolding run_chat_session
  run_chat_session-Numbers =
      Reports-Numbers is_set args.session_id (length (slice_to args.max_turns turns)) w _ (
        session_loop-Reports env is_set 600 args (row args.session_id) 0
          (slice_to args.max_turns turns) (system_message ∷ []) [] w)

  -- Whether it ends or raises, a session sends exactly the requests that the replies of the server make of
  -- the questions of its slice: each carries the messages of the one before it, the text of the
  -- server's reply to that one, and the next question; it stops asking after a request that fails,
  -- after a reply behind which the event is set, and after the last question.
  pub run_chat_session-IsGrowing :
      let asked =
        conversation env is_set 600 args.url args.model 0 w.requests
          (system_message ∷ [])
          (slice_to args.max_turns turns) in
      IsGrowing asked
      × ((run_chat_session env is_set args w).1.sent
          ≡ w.sent ++ map (chat_request 600 args.url args.model) asked)
      × Asks 600 args.url args.model
          (slice_to args.max_turns turns)
          (system_message ∷ [])
          w
          (run_chat_session env is_set args w).1
  unfolding run_chat_session
  run_chat_session-IsGrowing = (
    conversation-IsGrowing env is_set 600 args.url args.model 0 w.requests (system_message ∷ [])
        (slice_to args.max_turns turns),
    session_loop-conversation env is_set 600 args (row args.session_id) 0
        (slice_to args.max_turns turns) (system_message ∷ []) [] w,
    session_loop-Asks env is_set 600 args (row args.session_id) 0 (slice_to args.max_turns turns)
        (system_message ∷ []) [] w,
  )
