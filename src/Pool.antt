-- ===== src/Pool.antt =====
-- The pool of sessions that load_test_multi_session.py and load_test_chunked_prefill.py of
-- kv-inference/scripts/nebius-3-kv-expr keep: `new_session` and the two loops of the `with` block.
-- A future is the number of its session, a set of futures a list of them, and `outcome n` what
-- `f.result()` gives for session n: the rows that it returns or the exception that it raised.
pub mod Runs
pub mod Taken
pub mod Completed
pub mod Progress
use ai_infra_demo.Base.{ℕ, zero, suc, List, [], ◌∷◌, ◌++◌}
use ai_infra_demo.Py.Result.{Result, ok, raised, ◌>>=◌}

-- `done` are the futures that the last `wait` gave and the loop has still to read.
pub record Pool (R : Type 0) : Type 0 where
  pub session_counter : ℕ
  pub active : List ℕ
  pub done : List ℕ
  pub all_results : List R

module _ {R : Type 0} where
  abbrev pub no_sessions : Pool R
  no_sessions = record { session_counter = 0; active = []; done = []; all_results = [] }

  -- The counter goes up and a session with its value is submitted.
  unfoldable pub new_session : Pool R → ℕ × Pool R
  new_session p = let n = suc p.session_counter in (n, record p { session_counter = n })

  -- `active.add(new_session(pool))`
  unfoldable pub add_session : Pool R → Pool R
  unfolding new_session
  add_session p = let (n, q) = new_session p in record q { active = q.active ++ n ∷ [] }

  -- `{new_session(pool) for _ in range(concurrency)}`
  unfoldable pub start : ℕ → Pool R → Pool R
  unfolding add_session
  start zero p = p
  start (suc c) p = start c (add_session p)

  -- `done, active = concurrent.futures.wait(active, return_when=FIRST_COMPLETED)`
  abbrev pub wait_first : List ℕ → List ℕ → Pool R → Pool R
  wait_first done still p = record p { done = done; active = still }

  abbrev pub read_rows : Pool R → List ℕ → Result (List R) → Result (Pool R)
  read_rows p rest (ok rows) =
      ok (add_session (record p { done = rest; all_results = p.all_results ++ rows }))
  read_rows p rest (raised e) = raised e

  -- One round of `for f in done`: the rows are kept and a new session takes the place of f. An
  -- exception of f leaves the loops and ends the script.
  unfoldable pub read_done : (ℕ → Result (List R)) → ℕ → List ℕ → Pool R → Result (Pool R)
  read_done outcome f rest p = read_rows p rest (outcome f)

  -- `for f in concurrent.futures.as_completed(active)`, in the order of completion.
  unfoldable pub read_completed : (ℕ → Result (List R)) → List ℕ → List R → Result (List R)
  read_completed outcome [] all_results = ok all_results
  read_completed outcome (f ∷ fs) all_results =
      outcome f >>= λ rows. read_completed outcome fs (all_results ++ rows)
