-- ===== src/Injections/Rounds.antt =====
-- The rounds of an injector thread, whatever becomes of their requests.
use mathlib.Core.Path.{subst}
use mathlib.Core.List.{append_assoc, append-nil}
use ai_infra_demo.Base.{
  ℕ, zero, ◌⊎◌, inl, inr, suc, ◌≤◌, ◌<◌, ◌≡◌, refl, sym, ◌∙◌, Bool, true, false, List, [], ◌∷◌,
  ◌++◌, map, count_from, arith,
}
use ai_infra_demo.Py.Result.{Error, Result, ok, raised, map_ok}
use ai_infra_demo.Py.Text.{Text}
use ai_infra_demo.Effects.{Env, World}
use ai_infra_demo.Chat.{Message, Inference, chat_request, chat_inference}
use ai_infra_demo.Chat.Replies.{answer, chat_inference-Sent, chat_inference-texts}
use ai_infra_demo.Injections.{
  Entry, inject_entry, injection, inject, appended, inject_messages, inject_loop,
}

-- The rounds before the event is seen set.
abbrev pub rounds_before : List Bool → ℕ
rounds_before [] = 0
rounds_before (true ∷ later) = 0
rounds_before (false ∷ later) = suc (rounds_before later)

-- Injections with numbers above `lo` and up to `hi`, ascending.
abbrev pub IsInjected : ℕ → ℕ → List Entry → Type 0
IsInjected lo hi [] = lo ≤ hi
IsInjected lo hi (e ∷ es) =
    (n : ℕ) × (lo < n)
    × (e.session ≡ injection n)
    × (e.type ≡ inject)
    × (e.turn ≡ 1)
    × (e.prompt_messages ≡ 1)
    × IsInjected n hi es

IsInjected-below :
    (lo lo' hi : ℕ) (es : List Entry) → lo ≤ lo' → IsInjected lo' hi es → IsInjected lo hi es
IsInjected-below lo lo' hi [] h i = omega arith
IsInjected-below lo lo' hi (e ∷ es) h (n, gt, s, t, u, m, rest) = (n, omega arith, s, t, u, m, rest)

-- A list with more in front of what is there already.
appended_front :
    (n : ℕ) (result : Inference) (entries all rest : List Entry)
    → all ≡ appended n (ok result) entries ++ rest
    → all ≡ entries ++ (inject_entry n result ∷ rest)
appended_front n result entries all rest e =
    e ∙ append_assoc entries (inject_entry n result ∷ []) rest

module _ (env : Env) (max_tokens : ℕ) (prompt : ℕ → Text) (url model : Text) where
  abbrev messages : ℕ → List Message
  messages n = inject_messages env max_tokens prompt url model n

  -- What the k rounds from id + 1 on append, where the server has had q requests: a round that it answers
  -- adds an entry with the number of the round, a round in which the request fails adds none.
  abbrev pub Rounds : ℕ → ℕ → ℕ → List Entry → Type 0
  Rounds zero id q new = new ≡ []
  Rounds (suc k) id q new =
      ((e : Error) × (answer env max_tokens url model q (messages (suc id)) ≡ raised e)
        × Rounds k (suc id) (suc q) new)
      ⊎ ((result : Inference) × (rest : List Entry) × (answer env max_tokens url model q
              (messages (suc id))
            ≡ ok result.response_full)
          × (new ≡ inject_entry (suc id) result ∷ rest)
          × Rounds k (suc id) (suc q) rest)

  round-Rounds :
      (k id : ℕ) (r : Result Inference) (entries all : List Entry) (q : ℕ)
      → map_ok (λ (i : Inference). i.response_full) r
        ≡ answer env max_tokens url model q (messages (suc id))
      → (new : List Entry) × (all ≡ appended (suc id) r entries ++ new)
        × Rounds k (suc id) (suc q) new
      → (new : List Entry) × (all ≡ entries ++ new) × Rounds (suc k) id q new
  round-Rounds k id (ok result) entries all q reply (new, e, i) = (
    inject_entry (suc id) result ∷ new,
    appended_front (suc id) result entries all new e,
    inr (result, new, sym reply, refl, i),
  )
  round-Rounds k id (raised x) entries all q reply (new, e, i) = (new, e, inl (x, sym reply, i))

  abbrev pub IsInjectorRun : List Bool → ℕ → List Entry → World → List Entry × World → Type 0
  IsInjectorRun stops id entries w out =
      ((new : List Entry) × (out.0 ≡ entries ++ new)
        × Rounds (rounds_before stops) id w.requests new)
      × (out.1.sent
          ≡ w.sent
            ++ map (λ n. chat_request max_tokens url model (messages n))
                (count_from id (rounds_before stops)))

  pub inject_loop-IsInjectorRun :
      (stops : List Bool) (id : ℕ) (entries : List Entry) (w : World)
      → IsInjectorRun stops id entries w
          (inject_loop env max_tokens prompt url model stops id entries w)
  unfolding inject_loop
  inject_loop-IsInjectorRun [] id entries w =
      (([], sym (append-nil entries), refl), sym (append-nil w.sent))
  inject_loop-IsInjectorRun (true ∷ later) id entries w =
      (([], sym (append-nil entries), refl), sym (append-nil w.sent))
  inject_loop-IsInjectorRun (false ∷ later) id entries w =
      let asked = messages (suc id) in
      let m = chat_inference env max_tokens url model asked w in
      let s = chat_inference-Sent env max_tokens url model asked w in
      let all =
        inject_loop env max_tokens prompt url model later (suc id) (appended (suc id) m.0 entries)
          m.1 in
      let (kept, later_sent) =
        inject_loop-IsInjectorRun later (suc id) (appended (suc id) m.0 entries) m.1 in
      (
        round-Rounds (rounds_before later) id m.0 entries all.0 w.requests
            (chat_inference-texts env max_tokens url model asked w)
            (subst
              (λ q.
                (new : List Entry) × (all.0 ≡ appended (suc id) m.0 entries ++ new)
                × Rounds (rounds_before later) (suc id) q new)
              s.requests kept),
        later_sent
            ∙ rw s.sent (append_assoc w.sent (chat_request max_tokens url model asked ∷ []) _),
      )
