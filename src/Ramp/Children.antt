-- ===== src/Ramp/Children.antt =====
-- What the child of a stage reads from its command line.
use mathlib.Core.Option
use ai_infra_demo.Base.{◌≡◌, refl, ap, ◌∙◌, false, true, Option, none, some, List, [], ◌∷◌}
use ai_infra_demo.Base.Int.{ℤ}
use ai_infra_demo.Py.Text.{Text, codes, text_eq}
use ai_infra_demo.Py.Digits.{print_int}
use ai_infra_demo.Py.Ints.Laws.{read_int-print_int}
use ai_infra_demo.Py.Argparse.{value, option, store_one, exact, dash_kind, kind_of, parse_args}
use ai_infra_demo.Py.Argparse.Laws.{
  begins_with_dash, kind_of_plain, parse_args_end, parse_args_accepts, parse_args_flag, Starts,
}
use ai_infra_demo.Py.Argparse.Numbers.{NoNumbers, kind_of-print_int}
use ai_infra_demo.Chat.Options.{Options, default_options}
use ai_infra_demo.MultiSession.Options.{arguments}
use ai_infra_demo.Ramp.{RampArgs, child_argv}

module _ (read_float : Text → Option ℤ) where
  abbrev parse : Options → List Text → Option Options
  parse o argv = parse_args (arguments read_float) o argv

  no_numbers : NoNumbers (arguments read_float)
  no_numbers = (refl, (refl, (refl, (refl, (refl, (refl, (refl, (refl, tt))))))))

  plain : (t : Text) → begins_with_dash t ≡ false → kind_of (arguments read_float) t ≡ value
  plain = kind_of_plain (arguments read_float)

  is_int : (z : ℤ) → kind_of (arguments read_float) (print_int z) ≡ value
  is_int z = kind_of-print_int (arguments read_float) z no_numbers

  accepts :
      (f v : Text) (rest : List Text) (n m : Options) {g : Text → Options → Option Options}
      → kind_of (arguments read_float) f ≡ option (store_one g) none
      → kind_of (arguments read_float) v ≡ value
      → g v n ≡ some m
      → Starts (arguments read_float) rest
      → parse n (f ∷ v ∷ rest) ≡ parse m rest
  accepts = parse_args_accepts (arguments read_float)

  -- Where the three texts do not begin with a dash and the think time is read back as d, the child's
  -- options are those of the stage.
  pub parse-child_argv :
      (args : RampArgs) (c d : ℤ)
      → begins_with_dash args.url ≡ false
      → begins_with_dash args.model ≡ false
      → begins_with_dash args.think_time ≡ false
      → read_float args.think_time ≡ some d
      → parse default_options (child_argv args c)
        ≡ some (record {
          url = args.url;
          model = args.model;
          turns = args.turns;
          concurrency = c;
          think_time = d;
          continuous = true;
        })
  unfolding child_argv kind_of dash_kind exact text_eq
  parse-child_argv args c d url_plain model_plain time_plain reads =
      accepts (codes "--url") args.url _ _ _ refl (plain args.url url_plain) refl (_, none, refl)
      ∙ accepts (codes "--model") args.model _ _ _ refl (plain args.model model_plain) refl
          (_, none, refl)
      ∙ accepts (codes "--concurrency") (print_int c) _ _ _ refl (is_int c)
          (ap (Option.map _) (read_int-print_int c)) (_, none, refl)
      ∙ accepts (codes "--turns") (print_int args.turns) _ _ _ refl (is_int args.turns)
          (ap (Option.map _) (read_int-print_int args.turns)) (_, none, refl)
      ∙ accepts (codes "--think-time") args.think_time _ _ _ refl (plain args.think_time time_plain)
          (ap (Option.map _) reads) (_, none, refl)
      ∙ parse_args_flag (arguments read_float) (codes "--continuous") [] _ refl tt
      ∙ parse_args_end (arguments read_float) _
