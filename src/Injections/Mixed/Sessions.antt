-- ===== src/Injections/Mixed/Sessions.antt =====
-- Without the injections, a mixed run is a run of the pool.
use mathlib.Core.Path.{subst}
use ai_infra_demo.Base.{arith, ℕ, suc, ◌≡◌, refl, sym, ap, ◌∙◌, List, [], ◌++◌}
use ai_infra_demo.Py.Result.{Result, ok}
use ai_infra_demo.Py.Text.{Text}
use ai_infra_demo.Effects.{Env, World}
use ai_infra_demo.Pool.{Pool, no_sessions, start, new_session, add_session, read_done}
use ai_infra_demo.Pool.Runs.{Run, started, waited, read, start-Started, read_rows_returned}
use ai_infra_demo.Injections.{Entry, is_chat, inject_once}
use ai_infra_demo.Injections.Mixed.{Mixed, MixedRun, inject}
use ai_infra_demo.Injections.Mixed.Entries.{
  only, AllChat, only-append, only_chat-AllChat, only_chat-appended,
}

-- The pool as it would be without the injector.
abbrev pub sessions_of : Pool Entry → Pool Entry
sessions_of p = record p { all_results = only is_chat p.all_results }

module _ (env : Env) (max_tokens : ℕ) (prompt : ℕ → Text) (url model : Text)
    (outcome : ℕ → Result (List Entry)) (c : ℕ) (w : World)
    (chats : (n : ℕ) (rows : List Entry) → outcome n ≡ ok rows → AllChat rows) where
  read_done-sessions_of :
      (p q : Pool Entry) (f : ℕ) (rest : List ℕ)
      → read_done outcome f rest p ≡ ok q
      → read_done outcome f rest (sessions_of p) ≡ ok (sessions_of q)
  unfolding read_done add_session new_session
  read_done-sessions_of p q f rest e =
      let (rows, returned, is) = read_rows_returned outcome c p q rest (outcome f) e in
      let kept : only is_chat (p.all_results ++ rows) ≡ only is_chat p.all_results ++ rows =
        only-append is_chat p.all_results rows
        ∙ ap (◌++◌ (only is_chat p.all_results)) (only_chat-AllChat rows (chats f rows returned)) in
      rw (returned, is)
        (ap (λ (rs : List Entry). ok (add_session (record p { done = rest; all_results = rs })))
          (sym kept))

  sessions_of-inject :
      (m : Mixed) → sessions_of (inject env max_tokens prompt url model m).pool ≡ sessions_of m.pool
  unfolding inject inject_once
  sessions_of-inject m =
      ap (λ (rs : List Entry). record m.pool { all_results = rs })
        (only_chat-appended (suc m.inject_id) _ m.pool.all_results)

  start-sessions_of : sessions_of (start c no_sessions) ≡ start c no_sessions
  start-sessions_of =
      let (_, _, _, none_yet) =
        start-Started outcome c c 0 c no_sessions (omega arith) (refl, refl, refl, refl) in
      ap (λ (rs : List Entry). record (start c no_sessions) { all_results = only is_chat rs })
        none_yet
      ∙ ap (λ (rs : List Entry). record (start c no_sessions) { all_results = rs }) (sym none_yet)

  -- A mixed run without its injections is a run of the pool, with the same sessions read.
  pub MixedRun-Run :
      {m : Mixed} {finished : List ℕ}
      → MixedRun env max_tokens prompt url model outcome c w m finished
      → Run outcome c (sessions_of m.pool) finished
  MixedRun-Run MixedRun.started = subst (λ p. Run outcome c p []) (sym start-sessions_of) started
  MixedRun-Run (MixedRun.waited done still run idle some_done split) =
      waited done still (MixedRun-Run run) idle some_done split
  MixedRun-Run (MixedRun.read {m} {q} {finished} {rest} f run next e) =
      read f (MixedRun-Run run) next (read_done-sessions_of m.pool q f rest e)
  MixedRun-Run (MixedRun.injected {m} {finished} run) =
      subst (λ p. Run outcome c p finished) (sym (sessions_of-inject m)) (MixedRun-Run run)
