-- ===== src/Injections/Mixed/Threads.antt =====
-- What either thread has done in a mixed run, wherever it is looked at.
use mathlib.Core.List.{append_assoc, append-nil, map-append}
use ai_infra_demo.Base.{
  ℕ, suc, ◌≡◌, refl, sym, ap, ◌∙◌, List, [], ◌∷◌, ◌++◌, map, count_from, count_from_next, arith,
}
use ai_infra_demo.Py.Result.{Result, ok, raised}
use ai_infra_demo.Py.Text.{Text}
use ai_infra_demo.Effects.{Env, World}
use ai_infra_demo.Chat.{Inference, chat_request, chat_inference}
use ai_infra_demo.Chat.Replies.{chat_inference-Sent}
use ai_infra_demo.Pool.{Pool, no_sessions, read_done, new_session, add_session}
use ai_infra_demo.Pool.Runs.{IsKept, Run-IsKept, start-Started, read_rows_returned}
use ai_infra_demo.Injections.{Entry, is_inject, appended, inject_once, inject_messages, inject_loop}
use ai_infra_demo.Injections.Rounds.{IsInjected}
use ai_infra_demo.Injections.Alone.{alone, alone_next}
use ai_infra_demo.Injections.Mixed.{Mixed, MixedRun, inject}
use ai_infra_demo.Injections.Mixed.Entries.{
  only, AllChat, only-append, only_inject-AllChat, only_inject-appended,
}
use ai_infra_demo.Injections.Mixed.Sessions.{sessions_of, MixedRun-Run}

-- One more injection, with the next number, or none.
IsInjected-appended :
    (lo hi : ℕ) (r : Result Inference) (es : List Entry)
    → IsInjected lo hi es
    → IsInjected lo (suc hi) (appended (suc hi) r es)
IsInjected-appended lo hi (ok result) [] h =
    (suc hi, omega arith, refl, refl, refl, refl, omega arith)
IsInjected-appended lo hi (raised x) [] h = omega arith
IsInjected-appended lo hi (ok result) (e ∷ es) (n, gt, s, t, u, m, rest) =
    (n, gt, s, t, u, m, IsInjected-appended n hi (ok result) es rest)
IsInjected-appended lo hi (raised x) (e ∷ es) (n, gt, s, t, u, m, rest) =
    (n, gt, s, t, u, m, IsInjected-appended n hi (raised x) es rest)

module _ (env : Env) (max_tokens : ℕ) (prompt : ℕ → Text) (url model : Text)
    (outcome : ℕ → Result (List Entry)) (c : ℕ) (w : World) where
  -- The injections in the shared list, and the requests of the injector.
  pub record IsInjecting (m : Mixed) : Type 0 where
    pub injections : IsInjected 0 m.inject_id (only is_inject m.pool.all_results)
    pub sent :
        m.injector.sent
        ≡ w.sent
          ++ map
              (λ n.
                chat_request max_tokens url model
                  (inject_messages env max_tokens prompt url model n))
              (count_from 0 m.inject_id)
    pub unmixed :
        (only is_inject m.pool.all_results, m.injector)
        ≡ alone env max_tokens prompt url model w m.inject_id

  -- Before the first round.
  pub nothing-IsInjecting :
      (m : Mixed) → m.pool.all_results ≡ [] → m.inject_id ≡ 0 → m.injector ≡ w → IsInjecting m
  unfolding inject_loop
  nothing-IsInjecting m none_yet no_round before = record {
    injections = rw (none_yet, no_round) (omega arith);
    sent = rw (before, no_round) (sym (append-nil w.sent));
    unmixed = rw (none_yet, no_round, before) refl;
  }

  module _ (chats : (n : ℕ) (rows : List Entry) → outcome n ≡ ok rows → AllChat rows) where
    read-injections :
        (p q : Pool Entry) (f : ℕ) (rest : List ℕ)
        → read_done outcome f rest p ≡ ok q
        → only is_inject q.all_results ≡ only is_inject p.all_results
    unfolding read_done add_session new_session
    read-injections p q f rest e =
        let (rows, returned, is) = read_rows_returned outcome c p q rest (outcome f) e in
        ap (λ (x : Pool Entry). only is_inject x.all_results) is
        ∙ only-append is_inject p.all_results rows
        ∙ ap (◌++◌ (only is_inject p.all_results))
            (only_inject-AllChat rows (chats f rows returned))
        ∙ append-nil (only is_inject p.all_results)

    pub inject-IsInjecting :
        (m : Mixed) → IsInjecting m → IsInjecting (inject env max_tokens prompt url model m)
    unfolding inject inject_once
    inject-IsInjecting m i =
        let messages = inject_messages env max_tokens prompt url model (suc m.inject_id) in
        let request = λ (n : ℕ).
          chat_request max_tokens url model (inject_messages env max_tokens prompt url model n) in
        let rounds = count_from 0 m.inject_id in
        let r = chat_inference env max_tokens url model messages m.injector in
        record {
          injections = rw (only_inject-appended (suc m.inject_id) r.0 m.pool.all_results) (
              IsInjected-appended 0 m.inject_id r.0 (only is_inject m.pool.all_results)
                i.injections);
          sent =
              (chat_inference-Sent env max_tokens url model messages m.injector).sent
              ∙ ap (λ rs. rs ++ request (suc m.inject_id) ∷ []) i.sent
              ∙ append_assoc w.sent (map request rounds) (request (suc m.inject_id) ∷ [])
              ∙ ap (◌++◌ w.sent) (
                  sym (map-append request rounds (suc m.inject_id ∷ []))
                  ∙ ap (map request) (sym (count_from_next m.inject_id)));
          unmixed =
              ap (λ es. (es, r.1)) (only_inject-appended (suc m.inject_id) r.0 m.pool.all_results)
              ∙ ap
                  (λ (s : List Entry × World).
                    inject_once env max_tokens prompt url model (suc m.inject_id) s.0 s.1)
                  i.unmixed
              ∙ sym (alone_next env max_tokens prompt url model w m.inject_id);
        }

    MixedRun-IsInjecting :
        {m : Mixed} {finished : List ℕ}
        → MixedRun env max_tokens prompt url model outcome c w m finished
        → IsInjecting m
    MixedRun-IsInjecting MixedRun.started =
        let (_, _, _, none_yet) =
          start-Started outcome c c 0 c no_sessions (omega arith) (refl, refl, refl, refl) in
        nothing-IsInjecting _ none_yet refl refl
    MixedRun-IsInjecting (MixedRun.waited done still run idle some_done split) =
        let i = MixedRun-IsInjecting run in
        record { injections = i.injections; sent = i.sent; unmixed = i.unmixed }
    MixedRun-IsInjecting (MixedRun.read {m} {q} {finished} {rest} f run next e) =
        let i = MixedRun-IsInjecting run in
        record {
          injections = rw (read-injections m.pool q f rest e) i.injections;
          sent = i.sent;
          unmixed = rw (read-injections m.pool q f rest e) i.unmixed;
        }
    MixedRun-IsInjecting (MixedRun.injected {m} run) =
        inject-IsInjecting m (MixedRun-IsInjecting run)

    -- Wherever a mixed run is interrupted: what the shared list holds of chat turns is what the pool
    -- alone would have gathered, the rows of the sessions read, in order, with all that holds of
    -- such a run; what it holds of injections is what the injector alone would have appended; and it has
    -- sent one request for each of its rounds. No interleaving loses or changes an entry.
    pub MixedRun-threads :
        {m : Mixed} {finished : List ℕ}
        → MixedRun env max_tokens prompt url model outcome c w m finished
        → IsKept outcome c (sessions_of m.pool) finished × IsInjecting m
    MixedRun-threads run = (
      Run-IsKept outcome c (MixedRun-Run env max_tokens prompt url model outcome c w chats run),
      MixedRun-IsInjecting run,
    )
