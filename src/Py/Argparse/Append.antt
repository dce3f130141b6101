-- ===== src/Py/Argparse/Append.antt =====
-- A command line followed by further options.
use ai_infra_demo.Base.{◌≡◌, refl, ap, ◌∙◌, Option, none, some, List, [], ◌∷◌, ◌++◌}
use ai_infra_demo.Py.Text.{Text}
use ai_infra_demo.Py.Argparse.{
  Argument, Kind, value, option, no_option, Given, and_then, kind_of, attach, split_args,
  run_actions, take_action, take_actions, parse_args,
}
use ai_infra_demo.Py.Argparse.Laws.{Starts, Starts-Front, Front}

abbrev Split : Type 0 → Type 0
Split N = List Text × List (Given N)

module _ {N : Type 0} where
  abbrev more : List (Given N) → Split N → Split N
  more extra (values, given) = (values, given ++ extra)

  attach-more :
      (t : Text) (k : Kind N) (extra : List (Given N)) (o : Option (Split N))
      → and_then (and_then o (λ s. some (more extra s))) (attach t k)
        ≡ and_then (and_then o (attach t k)) (λ s. some (more extra s))
  attach-more t k extra none = refl
  attach-more t value extra (some (values, given)) = refl
  attach-more t (option s e) extra (some (values, given)) = refl
  attach-more t no_option extra (some (values, given)) = refl

  attach-none :
      (t : Text) (k : Kind N) (o : Option (Split N)) → o ≡ none → and_then o (attach t k) ≡ none
  attach-none t k none e = refl
  attach-none t k (some s) e = cc

  and_then_twice :
      (o : Option N) (f g h : N → Option N)
      → ((m : N) → h m ≡ and_then (f m) g)
      → and_then o h ≡ and_then (and_then o f) g
  and_then_twice none f g h e = refl
  and_then_twice (some m) f g h e = e m

  take_actions-append :
      (given extra : List (Given N)) (n : N)
      → take_actions (given ++ extra) n ≡ and_then (take_actions given n) (take_actions extra)
  unfolding take_actions
  take_actions-append [] extra n = refl
  take_actions-append (g ∷ given) extra n =
      and_then_twice (take_action g.store g.explicit g.following n) (take_actions given)
        (take_actions extra) (take_actions (given ++ extra)) (take_actions-append given extra)

module _ {N : Type 0} (arguments : List (Argument N)) where
  split_args-append :
      (xs ys : List Text) (extra : List (Given N))
      → split_args arguments ys ≡ some ([], extra)
      → split_args arguments (xs ++ ys)
        ≡ and_then (split_args arguments xs) (λ s. some (more extra s))
  unfolding split_args
  split_args-append [] ys extra e = e
  split_args-append (t ∷ xs) ys extra e =
      ap (λ o. and_then o (attach t (kind_of arguments t))) (split_args-append xs ys extra e)
      ∙ attach-more t (kind_of arguments t) extra (split_args arguments xs)

  split_args-append_none :
      (xs ys : List Text) → split_args arguments ys ≡ none → split_args arguments (xs ++ ys) ≡ none
  unfolding split_args
  split_args-append_none [] ys e = e
  split_args-append_none (t ∷ xs) ys e =
      attach-none t (kind_of arguments t) (split_args arguments (xs ++ ys))
        (split_args-append_none xs ys e)

  run_more :
      (n : N) (extra : List (Given N)) (o : Option (Split N))
      → and_then (and_then o (λ s. some (more extra s))) (run_actions n)
        ≡ and_then (and_then o (run_actions n)) (take_actions extra)
  run_more n extra none = refl
  run_more n extra (some ([], given)) = take_actions-append given extra n
  run_more n extra (some (v ∷ vs, given)) = refl

  none_after : (o : Option N) → ◌≡◌ {A = Option N} none (and_then o (λ m. none))
  none_after none = refl
  none_after (some m) = refl

  by_split :
      (n : N) (xs ys : List Text) (o : Option (Split N))
      → split_args arguments ys ≡ o
      → Front arguments o
      → parse_args arguments n (xs ++ ys)
        ≡ and_then (parse_args arguments n xs) (λ m. and_then o (run_actions m))
  unfolding parse_args
  by_split n xs ys none e front =
      ap (λ o. and_then o (run_actions n)) (split_args-append_none xs ys e)
      ∙ none_after (parse_args arguments n xs)
  by_split n xs ys (some ([], extra)) e front =
      ap (λ o. and_then o (run_actions n)) (split_args-append xs ys extra e)
      ∙ run_more n extra (split_args arguments xs)
  by_split n xs ys (some (v ∷ vs, extra)) e front = absurd (cc)

  -- Options at the end of a command line act on what was read before them.
  pub parse_args-append :
      (n : N) (xs ys : List Text)
      → Starts arguments ys
      → parse_args arguments n (xs ++ ys)
        ≡ and_then (parse_args arguments n xs) (λ m. parse_args arguments m ys)
  unfolding parse_args
  parse_args-append n xs ys starts =
      by_split n xs ys (split_args arguments ys) refl (Starts-Front arguments ys starts)
