-- ===== src/Py/Argparse/Laws.antt =====
-- How `parse_args` reads a command line option by option, and which arguments are values.
use ai_infra_demo.Base.{◌≡◌, refl, ap, ◌∙◌, Bool, false, Option, none, some, List, [], ◌∷◌, ◌==◌}
use ai_infra_demo.Py.Text.{Text}
use ai_infra_demo.Py.Argparse.{
  Argument, Store, store_one, store_true, value, option, Given, and_then, kind_of, split_args,
  take_actions, parse_args, attach, run_actions,
}

abbrev pub begins_with_dash : Text → Bool
begins_with_dash [] = false
begins_with_dash (c ∷ t) = c == 45

module _ {N : Type 0} (arguments : List (Argument N)) where
  pub kind_of_plain : (t : Text) → begins_with_dash t ≡ false → kind_of arguments t ≡ value
  unfolding kind_of
  kind_of_plain [] h = refl
  kind_of_plain (c ∷ t) h = rw h refl

  -- The rest of a command line is empty or begins with an option.
  abbrev pub Starts : List Text → Type 0
  Starts [] = Unit
  Starts (t ∷ ts) = (s : Store N) × (e : Option Text) × (kind_of arguments t ≡ option s e)

  -- What `split_args` gives of such a rest has no values in front.
  abbrev pub Front : Option (List Text × List (Given N)) → Type 0
  Front none = Unit
  Front (some (values, given)) = values ≡ []

  option-Front :
      (t : Text) (s : Store N) (e : Option Text) (o : Option (List Text × List (Given N)))
      → Front (and_then o (attach t (option s e)))
  option-Front t s e none = tt
  option-Front t s e (some (values, given)) = refl

  pub Starts-Front : (rest : List Text) → Starts rest → Front (split_args arguments rest)
  unfolding split_args
  Starts-Front [] h = refl
  Starts-Front (t ∷ ts) (s, e, k) = rw k (option-Front t s e (split_args arguments ts))

  run : N → Option (List Text × List (Given N)) → Option N
  run n o = and_then o (run_actions n)

  none_after : (o : Option N) → none ≡ and_then o (λ m. run m none)
  unfolding run
  none_after none = refl
  none_after (some m) = refl

  one_step :
      (f v : Text) (g : Text → N → Option N) (n : N) (o : Option (List Text × List (Given N)))
      → Front o
      → run n (and_then (and_then o (attach v value)) (attach f (option (store_one g) none)))
        ≡ and_then (g v n) (λ m. run m o)
  unfolding run take_actions
  one_step f v g n none h = none_after (g v n)
  one_step f v g n (some ([], given)) h = refl
  one_step f v g n (some (w ∷ ws, given)) h = absurd (cc)

  pub parse_args_end : (n : N) → parse_args arguments n [] ≡ some n
  unfolding parse_args split_args take_actions
  parse_args_end n = refl

  -- An option with one value acts, and what follows is read after it.
  pub parse_args_one :
      (f v : Text) (rest : List Text) (n : N) {g : Text → N → Option N}
      → kind_of arguments f ≡ option (store_one g) none
      → kind_of arguments v ≡ value
      → Starts rest
      → parse_args arguments n (f ∷ v ∷ rest) ≡ and_then (g v n) (λ m. parse_args arguments m rest)
  unfolding parse_args split_args run
  parse_args_one f v rest n {g} is_option is_value starts =
      rw (is_option, is_value)
        (one_step f v g n (split_args arguments rest) (Starts-Front rest starts))

  -- The same, where the option accepts its value.
  pub parse_args_accepts :
      (f v : Text) (rest : List Text) (n m : N) {g : Text → N → Option N}
      → kind_of arguments f ≡ option (store_one g) none
      → kind_of arguments v ≡ value
      → g v n ≡ some m
      → Starts rest
      → parse_args arguments n (f ∷ v ∷ rest) ≡ parse_args arguments m rest
  parse_args_accepts f v rest n m is_option is_value accepts starts =
      parse_args_one f v rest n is_option is_value starts
      ∙ ap (λ o. and_then o (λ k. parse_args arguments k rest)) accepts

  flag_step :
      (f : Text) (g : N → N) (n : N) (o : Option (List Text × List (Given N)))
      → Front o
      → run n (and_then o (attach f (option (store_true g) none))) ≡ run (g n) o
  unfolding run take_actions
  flag_step f g n none h = refl
  flag_step f g n (some ([], given)) h = refl
  flag_step f g n (some (w ∷ ws, given)) h = absurd (cc)

  pub parse_args_flag :
      (f : Text) (rest : List Text) (n : N) {g : N → N}
      → kind_of arguments f ≡ option (store_true g) none
      → Starts rest
      → parse_args arguments n (f ∷ rest) ≡ parse_args arguments (g n) rest
  unfolding parse_args split_args run
  parse_args_flag f rest n {g} is_option starts =
      rw is_option (flag_step f g n (split_args arguments rest) (Starts-Front rest starts))
