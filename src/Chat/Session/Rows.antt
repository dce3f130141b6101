-- ===== src/Chat/Session/Rows.antt =====
-- What a chat session reports: how many rows, and from what each is made.
use mathlib.Core.List.{append_assoc, append-nil}
use ai_infra_demo.Base.{
  ℕ, zero, suc, false, ◌+◌, ◌≤◌, ◌<◌, ◌≡◌, refl, sym, ap, ◌∙◌, Bool, List, [], ◌∷◌, ◌++◌, length,
  length-append, arith, inl, inr, if◌then◌else◌,
}
use mathlib.Core.Path.{subst}
use ai_infra_demo.Py.Result.{Result, ok, raised}
use ai_infra_demo.Py.Text.{Text}
use ai_infra_demo.Effects.{Env, World, and_then}
use ai_infra_demo.Chat.{Message, user, assistant, Inference, chat_inference}
use ai_infra_demo.Chat.Replies.{chat_inference-Sent}
use ai_infra_demo.Chat.Session.{SessionArgs, next_turn, session_loop}
use ai_infra_demo.Chat.Session.Asks.{next_turn_cases}

-- Of n turns from turn i on, those up to the first after which the event is set.
abbrev pub turns_until : (ℕ → Bool) → ℕ → ℕ → ℕ
turns_until is_set i zero = 0
turns_until is_set i (suc n) = suc (if is_set i then 0 else turns_until is_set (suc i) n)

-- Rows made at the turns from i on, of a conversation with m messages before them.
abbrev pub IsMade : {R : Type 0} → (ℕ → Inference → List Message → R) → ℕ → ℕ → List R → Type 0
IsMade make_row i m [] = Unit
IsMade make_row i m (r ∷ rs) =
    ((result : Inference) × (messages : List Message) × (length messages ≡ m + 2)
      × (r ≡ make_row i result messages))
    × IsMade make_row (suc i) (m + 2) rs

-- A session that ends has one row and one request for each turn; one that raises has stopped at
-- the request that raised, and its rows are lost.
abbrev pub Reports :
    {R : Type 0}
    → (ℕ → Bool)
    → (ℕ → Inference → List Message → R)
    → ℕ
    → ℕ
    → ℕ
    → List R
    → World
    → Result (List R) × World
    → Type 0
Reports is_set make_row i m n rows w (ok rows', u) =
    (new : List _) × (rows' ≡ rows ++ new)
    × IsMade make_row i m new
    × (length new ≡ turns_until is_set i n)
    × (u.requests ≡ w.requests + length new)
Reports is_set make_row i m n rows w (raised e, u) =
    (w.requests < u.requests) × (u.requests ≤ w.requests + turns_until is_set i n)

length-turn :
    (history : List Message) (q a : Text)
    → length ((history ++ user q ∷ []) ++ assistant a ∷ []) ≡ length history + 2
length-turn history q a = omega (
  arith,
  length-append history (user q ∷ []),
  length-append (history ++ user q ∷ []) (assistant a ∷ []),
)

module _ (env : Env) (is_set : ℕ → Bool) (max_tokens : ℕ) (args : SessionArgs) {R : Type 0}
    (make_row : ℕ → Inference → List Message → R) where
  Reports-cons :
      (i m n : ℕ) (rows : List R) (result : Inference) (messages : List Message) (w u : World)
      (out : Result (List R) × World)
      → is_set i ≡ false
      → length messages ≡ m + 2
      → u.requests ≡ suc w.requests
      → Reports is_set make_row (suc i) (m + 2) n (rows ++ make_row i result messages ∷ []) u out
      → Reports is_set make_row i m (suc n) rows w out
  Reports-cons i m n rows result messages w u (ok rows', x) more len q (new, e, made, count, sent) =
      (
        make_row i result messages ∷ new,
        e ∙ append_assoc rows (make_row i result messages ∷ []) new,
        ((result, messages, len, refl), made),
        rw more (ap suc count),
        omega arith,
      )
  Reports-cons i m n rows result messages w u (raised e, x) more len q (lo, hi) =
      rw more (omega arith, omega arith)

  after_reply-Reports :
      (i : ℕ) (q : Text) (rest : List Text) (history : List Message) (rows : List R) (w : World)
      (m : Result Inference × World)
      → m.1.requests ≡ suc w.requests
      → ((h : List Message) (r : List R) (u : World)
          → Reports is_set make_row
              (suc i)
              (length h)
              (length rest)
              r
              u
              (session_loop env is_set max_tokens args make_row (suc i) rest h r u))
      → Reports is_set make_row i (length history) (suc (length rest)) rows w (
          and_then m (
            next_turn env is_set max_tokens args make_row i
              (session_loop env is_set max_tokens args make_row (suc i) rest)
              (history ++ user q ∷ [])
              rows))
  after_reply-Reports i q rest history rows w (raised e, u) sent ih = (omega arith, omega arith)
  after_reply-Reports i q rest history rows w (ok result, u) sent ih =
      let messages = history ++ user q ∷ [] in
      let answered = messages ++ assistant result.response_full ∷ [] in
      let r = make_row i result answered in
      let grown = length-turn history q result.response_full in
      elim (next_turn_cases env is_set max_tokens args make_row i
        (session_loop env is_set max_tokens args make_row (suc i) rest) messages rows result u) [
          | inl (stop, e) ↦
              rw (e, stop) (r ∷ [], refl, ((result, answered, grown, refl), tt), refl, omega arith)
          | inr (more, v, quiet, e) ↦
              let after =
                session_loop env is_set max_tokens args make_row (suc i) rest answered
                  (rows ++ r ∷ []) v in
              rw e (
                Reports-cons i (length history) (length rest) rows result answered w v after more
                  grown (quiet.1 ∙ sent)
                  (subst
                    (λ k. Reports is_set make_row (suc i) k (length rest) (rows ++ r ∷ []) v after)
                    grown (ih answered (rows ++ r ∷ []) v)))
        ]

  -- A session that ends has a row for each turn up to the first that finds the event set, made
  -- from the conversation up to it; one that raises has sent the request that raised.
  pub session_loop-Reports :
      (i : ℕ) (questions : List Text) (history : List Message) (rows : List R) (w : World)
      → Reports is_set make_row i
          (length history)
          (length questions)
          rows
          w
          (session_loop env is_set max_tokens args make_row i questions history rows w)
  unfolding session_loop
  session_loop-Reports i [] history rows w = ([], sym (append-nil rows), tt, refl, omega arith)
  session_loop-Reports i (q ∷ rest) history rows w =
      after_reply-Reports i q rest history rows w
        (chat_inference env max_tokens args.url args.model (history ++ user q ∷ []) w)
        (chat_inference-Sent env max_tokens args.url args.model (history ++ user q ∷ []) w).requests
        (session_loop-Reports (suc i) rest)
