-- ===== src/Injections/Alone.antt =====
-- The injector by itself, for any number of its rounds.
use ai_infra_demo.Base.{ℕ, zero, suc, ◌+◌, ◌≡◌, ap, ◌∙◌, Bool, false, List, [], ◌∷◌, arith}
use ai_infra_demo.Py.Text.{Text}
use ai_infra_demo.Effects.{Env, World}
use ai_infra_demo.Injections.{Entry, inject_once, inject_loop}

-- The event is not set after any of k sleeps.
abbrev pub not_set : ℕ → List Bool
not_set zero = []
not_set (suc k) = false ∷ not_set k

module _ (env : Env) (max_tokens : ℕ) (prompt : ℕ → Text) (url model : Text) where
  abbrev loop : ℕ → ℕ → List Entry × World → List Entry × World
  loop k id s = inject_loop env max_tokens prompt url model (not_set k) id s.0 s.1

  abbrev round : ℕ → List Entry × World → List Entry × World
  round n s = inject_once env max_tokens prompt url model n s.0 s.1

  -- What k rounds leave that begin in the world w with an empty list.
  abbrev pub alone : World → ℕ → List Entry × World
  alone w k = loop k 0 ([], w)

  one_more :
      (k id : ℕ) (s : List Entry × World) → loop (suc k) id s ≡ round (suc (id + k)) (loop k id s)
  unfolding inject_loop
  one_more zero id s = ap (λ n. round (suc n) s) (omega arith)
  one_more (suc k) id s =
      one_more k (suc id) (round (suc id) s)
      ∙ ap (λ n. round (suc n) (loop k (suc id) (round (suc id) s))) (omega arith)

  pub alone_next : (w : World) (k : ℕ) → alone w (suc k) ≡ round (suc k) (alone w k)
  alone_next w k = one_more k 0 ([], w) ∙ ap (λ n. round (suc n) (alone w k)) (omega arith)
