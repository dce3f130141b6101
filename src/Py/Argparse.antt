-- ===== src/Py/Argparse.antt =====
-- `argparse.ArgumentParser` with options only, as the scripts use it: `add_argument` and `parse_args`.
-- `parse_args` returns the namespace or raises SystemExit, after a usage error and after the help
-- alike; SystemExit is `none`, so the order in which errors are found is of no matter.
-- A `--` is an unrecognised argument here, since the scripts take no positional ones. The digits
-- of a negative number are those of ASCII.
pub mod Laws
pub mod Numbers
pub mod Append
use mathlib.Core.Option
use ai_infra_demo.Base.{
  ℕ, Bool, true, false, not, ◌&&◌, ◌||◌, Option, none, some, List, [], ◌∷◌, ◌++◌, ◌==◌, take, drop,
  if◌then◌else◌,
}
use ai_infra_demo.Py.Text.{Text, codes, text_eq, starts_with, drop_while}
use ai_infra_demo.Py.Digits.{is_digit}

-- What an option takes, and what it does to the namespace; `none` where its type or its choices
-- refuse the text.
pub data Store (N : Type 0) : Type 0 where
  store_one : (Text → N → Option N) → Store N
  store_some : (List Text → N → Option N) → Store N  -- nargs="+"
  store_true : (N → N) → Store N
  show_help : Store N

-- `parser.add_argument(flag, …)`
pub record Argument (N : Type 0) : Type 0 where
  pub flag : Text
  pub store : Store N

-- The part before the first `=`, and the part after it if there is one.
unfoldable pub split_eq : Text → Text × Option Text
split_eq [] = ([], none)
split_eq (c ∷ t) = elim (c == 61) [
  | true ↦ ([], some t)
  | false ↦ let (name, explicit) = split_eq t in (c ∷ name, explicit)
]

-- `\d+$`, which also matches before a last newline; `some_digit` says whether one has been read.
unfoldable pub ends_in_digits : Bool → Text → Bool
ends_in_digits some_digit [] = some_digit
ends_in_digits some_digit (c ∷ t) = elim (is_digit c) [
  | true ↦ ends_in_digits true t
  | false ↦ some_digit && c == 10 && text_eq t []
]

abbrev after_point : Text → Bool
after_point [] = false
after_point (c ∷ t) = c == 46 && ends_in_digits false t

-- What follows the minus in `^-\d+$|^-\d*\.\d+$`.
unfoldable pub is_negative_number : Text → Bool
unfolding ends_in_digits drop_while
is_negative_number t = ends_in_digits false t || after_point (drop_while is_digit t)

unfoldable pub has_space : Text → Bool
has_space [] = false
has_space (c ∷ t) = c == 32 || has_space t

-- What `_parse_optional` makes of an argument: a value, an option with what stands behind its `=`,
-- or neither, where it is unknown or ambiguous.
pub data Kind (N : Type 0) : Type 0 where
  value : Kind N
  option : Store N → Option Text → Kind N
  no_option : Kind N

-- An option with the values that follow it.
pub record Given (N : Type 0) : Type 0 where
  pub store : Store N
  pub explicit : Option Text
  pub following : List Text

abbrev pub and_then {ℓ κ} : {A : Type ℓ} {B : Type κ} → Option A → (A → Option B) → Option B
and_then none next = none
and_then (some a) next = next a

module _ {N : Type 0} where
  unfoldable pub exact : List (Argument N) → Text → Option (Store N)
  exact [] t = none
  exact (a ∷ as_left) t = if text_eq t a.flag then some a.store else exact as_left t

  -- The options that the text abbreviates.
  unfoldable pub abbreviated : List (Argument N) → Text → List (Store N)
  abbreviated [] t = []
  abbreviated (a ∷ as_left) t =
      if starts_with a.flag t then a.store ∷ abbreviated as_left t else abbreviated as_left t

  -- `-xv` is the option `-x` with the value v.
  unfoldable pub one_letter : List (Argument N) → Text → List (Kind N)
  unfolding exact
  one_letter arguments t = elim (exact arguments (take 2 t)) [
    | some s ↦ option s (some (drop 2 t)) ∷ []
    | none ↦ []
  ]

  abbrev with_explicit : Option Text → List (Store N) → List (Kind N)
  with_explicit explicit [] = []
  with_explicit explicit (s ∷ ss) = option s explicit ∷ with_explicit explicit ss

  -- `_get_option_tuples` of a text that begins with a dash.
  unfoldable pub option_tuples : List (Argument N) → Text → List (Kind N)
  unfolding one_letter abbreviated split_eq
  option_tuples arguments t =
      if starts_with t (codes "--")
      then (let (name, explicit) = split_eq t in
          with_explicit explicit (abbreviated arguments name))
      else one_letter arguments t ++ with_explicit none (abbreviated arguments t)

  abbrev dashed : Text → Kind N
  dashed t = if is_negative_number (drop 1 t) || has_space t then value else no_option

  abbrev the_only : Text → List (Kind N) → Kind N
  the_only t [] = dashed t
  the_only t (k ∷ []) = k
  the_only t (k ∷ l ∷ ks) = no_option

  -- The option whose flag stands before a `=`, if there is one.
  abbrev exact_before : List (Argument N) → Text × Option Text → Option (Kind N)
  exact_before arguments (name, none) = none
  exact_before arguments (name, some v) = Option.map (λ s. option s (some v)) (exact arguments name)

  abbrev or_kind : Option (Kind N) → Kind N → Kind N
  or_kind (some k) other = k
  or_kind none other = other

  -- A text that begins with a dash.
  unfoldable pub dash_kind : List (Argument N) → Text → Kind N
  dash_kind arguments t = or_kind (Option.map (λ s. option s none) (exact arguments t)) (
      if text_eq t (codes "-")
      then value
      else or_kind (exact_before arguments (split_eq t))
          (if text_eq t (codes "--") then no_option else the_only t (option_tuples arguments t)))

  unfoldable pub kind_of : List (Argument N) → Text → Kind N
  kind_of arguments [] = value
  kind_of arguments (c ∷ t) = if c == 45 then dash_kind arguments (c ∷ t) else value

  abbrev pub attach :
      Text → Kind N → List Text × List (Given N) → Option (List Text × List (Given N))
  attach t value (values, given) = some (t ∷ values, given)
  attach t (option s e) (values, given) =
      some ([], record { store = s; explicit = e; following = values } ∷ given)
  attach t no_option (values, given) = none

  -- The values before the first option, and the options.
  unfoldable pub split_args : List (Argument N) → List Text → Option (List Text × List (Given N))
  split_args arguments [] = some ([], [])
  split_args arguments (t ∷ ts) =
      and_then (split_args arguments ts) (attach t (kind_of arguments t))

  -- `take_action`: an option takes its values, and none may be left.
  abbrev pub take_action : Store N → Option Text → List Text → N → Option N
  take_action (store_one f) none (v ∷ []) n = f v n
  take_action (store_one f) none [] n = none
  take_action (store_one f) none (v ∷ w ∷ vs) n = none
  take_action (store_one f) (some v) [] n = f v n
  take_action (store_one f) (some v) (w ∷ vs) n = none
  take_action (store_some f) none [] n = none
  take_action (store_some f) none (v ∷ vs) n = f (v ∷ vs) n
  take_action (store_some f) (some v) [] n = f (v ∷ []) n
  take_action (store_some f) (some v) (w ∷ vs) n = none
  take_action (store_true f) none [] n = some (f n)
  take_action (store_true f) none (v ∷ vs) n = none
  take_action (store_true f) (some v) vs n = none
  take_action show_help e vs n = none

  unfoldable pub take_actions : List (Given N) → N → Option N
  take_actions [] n = some n
  take_actions (g ∷ gs) n =
      and_then (take_action g.store g.explicit g.following n) (take_actions gs)

  abbrev pub run_actions : N → List Text × List (Given N) → Option N
  run_actions n ([], given) = take_actions given n
  run_actions n (v ∷ vs, given) = none

  -- `parser.parse_args()`; `n` holds the defaults.
  unfoldable pub parse_args : List (Argument N) → N → List Text → Option N
  unfolding split_args take_actions
  parse_args arguments n argv = and_then (split_args arguments argv) (run_actions n)

  -- `-h` and `--help`, which every parser has.
  abbrev pub help : List (Argument N)
  help =
      record { flag = codes "-h"; store = show_help }
      ∷ record { flag = codes "--help"; store = show_help }
      ∷ []
