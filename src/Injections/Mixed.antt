-- ===== src/Injections/Mixed.antt =====
-- `__main__` of load_test_chunked_prefill.py with `--mode mixed --continuous`: the main thread, which
-- reads sessions, and the injector thread append to one list, `all_results`, under a lock. A
-- round of either touches the list once, with the lock held, so a round is one step.
pub mod Sessions
pub mod Entries
pub mod Threads
pub mod Gathered
use mathlib.Core.List.{Perm}
use ai_infra_demo.Base.{ℕ, suc, ◌≡◌, ◌≢◌, List, [], ◌∷◌, ◌++◌}
use ai_infra_demo.Py.Result.{Result, ok}
use ai_infra_demo.Py.Text.{Text}
use ai_infra_demo.Effects.{Env, World}
use ai_infra_demo.Pool.{Pool, no_sessions, start, wait_first, read_done}
use ai_infra_demo.Injections.{Entry, inject_once}

-- The shared list is that of the pool; the injector has a counter and a world of its own.
pub record Mixed : Type 0 where
  pub pool : Pool Entry
  pub inject_id : ℕ
  pub injector : World

module _ (env : Env) (max_tokens : ℕ) (prompt : ℕ → Text) (url model : Text) where
  -- A round of the injector on the shared list.
  unfoldable pub inject : Mixed → Mixed
  inject m =
      let (entries, w) =
        inject_once env max_tokens prompt url model (suc m.inject_id) m.pool.all_results
          m.injector in
      record {
        pool = record m.pool { all_results = entries };
        inject_id = suc m.inject_id;
        injector = w;
      }

  -- The states that a run passes through, with the sessions read so far, in order; `w` is the world in
  -- which the injector starts.
  module _ (outcome : ℕ → Result (List Entry)) (c : ℕ) (w : World) where
    pub data MixedRun : Mixed → List ℕ → Type 0 where
      started : MixedRun (record { pool = start c no_sessions; inject_id = 0; injector = w }) []
      waited :
          {m : Mixed} {finished : List ℕ}
          → (done still : List ℕ) → MixedRun m finished
          → m.pool.done ≡ []
          → ◌≢◌ {A = List ℕ} done []
          → Perm (done ++ still) m.pool.active
          → MixedRun (record m { pool = wait_first done still m.pool }) finished
      read :
          {m : Mixed} {q : Pool Entry} {finished rest : List ℕ}
          → (f : ℕ) → MixedRun m finished
          → m.pool.done ≡ f ∷ rest
          → read_done outcome f rest m.pool ≡ ok q
          → MixedRun (record m { pool = q }) (finished ++ f ∷ [])
      injected :
          {m : Mixed} {finished : List ℕ} → MixedRun m finished → MixedRun (inject m) finished
