-- ===== src/Injections/Mixed/Gathered.antt =====
-- The loop over `as_completed` of load_test_chunked_prefill.py with `--mode mixed`, beside the injector:
-- no stop event is set, so the injector goes on as long as the process.
use mathlib.Core.List.{append-nil}
use ai_infra_demo.Base.{ℕ, ◌≡◌, refl, sym, ap, ◌∙◌, List, [], ◌∷◌, ◌++◌, arith}
use ai_infra_demo.Py.Result.{Result, ok}
use ai_infra_demo.Py.Text.{Text}
use ai_infra_demo.Effects.{Env, World}
use ai_infra_demo.Pool.{no_sessions, start}
use ai_infra_demo.Pool.Runs.{rows_of, rows_of-append, rows_or_none, start-Started}
use ai_infra_demo.Pool.Taken.{AllReturned, AllReturned-append}
use ai_infra_demo.Injections.{Entry, is_chat, is_inject, inject_once}
use ai_infra_demo.Injections.Mixed.{Mixed, inject}
use ai_infra_demo.Injections.Mixed.Entries.{
  only, AllChat, only-append, only_chat-AllChat, only_inject-AllChat, only_chat-appended,
}
use ai_infra_demo.Injections.Mixed.Threads.{IsInjecting, inject-IsInjecting, nothing-IsInjecting}

module _ (env : Env) (max_tokens : ℕ) (prompt : ℕ → Text) (url model : Text)
    (outcome : ℕ → Result (List Entry)) (c : ℕ) (w : World) where
  -- The states that the shared list passes through, with the sessions read so far, in order.
  pub data GatheredRun : Mixed → List ℕ → Type 0 where
    begun : GatheredRun (record { pool = start c no_sessions; inject_id = 0; injector = w }) []
    gathered :
        {m : Mixed} {finished : List ℕ} {rows : List Entry}
        → (f : ℕ) → GatheredRun m finished
        → outcome f ≡ ok rows
        → GatheredRun
            (record m { pool = record m.pool { all_results = m.pool.all_results ++ rows } })
            (finished ++ f ∷ [])
    injected :
        {m : Mixed} {finished : List ℕ}
        → GatheredRun m finished
        → GatheredRun (inject env max_tokens prompt url model m) finished

  -- The chat turns in the list are the rows of the sessions read, in order.
  pub GatheredRun-rows :
      ((n : ℕ) (rows : List Entry) → outcome n ≡ ok rows → AllChat rows)
      → {m : Mixed} {finished : List ℕ} → GatheredRun m finished
      → only is_chat m.pool.all_results ≡ rows_of outcome finished
  unfolding inject inject_once
  GatheredRun-rows chats begun =
      let (_, _, _, none_yet) =
        start-Started outcome c c 0 c no_sessions (omega arith) (refl, refl, refl, refl) in
      ap (only is_chat) none_yet
  GatheredRun-rows chats (gathered {m} {finished} {rows} f run e) =
      only-append is_chat m.pool.all_results rows
      ∙ ap (λ es. es ++ only is_chat rows) (GatheredRun-rows chats run)
      ∙ ap (◌++◌ (rows_of outcome finished))
          (only_chat-AllChat rows (chats f rows e) ∙ sym (one_session f rows e))
      ∙ sym (rows_of-append outcome finished (f ∷ []))
    where
      one_session : (g : ℕ) (xs : List Entry) → outcome g ≡ ok xs → rows_of outcome (g ∷ []) ≡ xs
      one_session g xs k = ap (λ r. rows_or_none r ++ []) k ∙ append-nil xs
  GatheredRun-rows chats (injected {m} run) =
      only_chat-appended _ _ m.pool.all_results ∙ GatheredRun-rows chats run

  -- The injections in the list, and the requests of the injector.
  pub GatheredRun-IsInjecting :
      ((n : ℕ) (rows : List Entry) → outcome n ≡ ok rows → AllChat rows)
      → {m : Mixed} {finished : List ℕ} → GatheredRun m finished
      → IsInjecting env max_tokens prompt url model outcome c w m
  GatheredRun-IsInjecting chats begun =
      let (_, _, _, none_yet) =
        start-Started outcome c c 0 c no_sessions (omega arith) (refl, refl, refl, refl) in
      nothing-IsInjecting env max_tokens prompt url model outcome c w _ none_yet refl refl
  GatheredRun-IsInjecting chats (gathered {m} {finished} {rows} f run e) =
      let i = GatheredRun-IsInjecting chats run in
      let same : only is_inject (m.pool.all_results ++ rows) ≡ only is_inject m.pool.all_results =
        only-append is_inject m.pool.all_results rows
        ∙ ap (◌++◌ (only is_inject m.pool.all_results)) (only_inject-AllChat rows (chats f rows e))
        ∙ append-nil (only is_inject m.pool.all_results) in
      record { injections = rw same i.injections; sent = i.sent; unmixed = rw same i.unmixed }
  GatheredRun-IsInjecting chats (injected {m} run) =
      inject-IsInjecting env max_tokens prompt url model outcome c w chats m
        (GatheredRun-IsInjecting chats run)

  pub GatheredRun-AllReturned :
      {m : Mixed} {finished : List ℕ} → GatheredRun m finished → AllReturned outcome finished
  GatheredRun-AllReturned begun = tt
  GatheredRun-AllReturned (gathered {m} {finished} {rows} f run e) =
      AllReturned-append outcome finished (f ∷ []) (GatheredRun-AllReturned run) ((rows, e), tt)
  GatheredRun-AllReturned (injected run) = GatheredRun-AllReturned run
