-- ===== src/Injections/Options/Flags.antt =====
-- What one more option at the end of a command line changes.
use mathlib.Core.Path.{subst}
use mathlib.Core.Option
use ai_infra_demo.Base.{
  ℕ, ◌≡◌, refl, ap, ◌∙◌, Option, none, some, List, [], ◌∷◌, ◌++◌, Bool, true, false, if◌then◌else◌,
}
use ai_infra_demo.Base.Int.{ℤ}
use ai_infra_demo.Py.Text.{Text, codes, text_eq}
use ai_infra_demo.Py.Argparse.{value, exact, dash_kind, kind_of, and_then, parse_args}
use ai_infra_demo.Py.Argparse.Laws.{
  parse_args_end, parse_args_flag, parse_args_accepts, kind_of_plain,
}
use ai_infra_demo.Py.Argparse.Append.{parse_args-append}
use ai_infra_demo.Py.Result.{Result, ok, raised}
use ai_infra_demo.Chat.Session.{SessionArgs}
use ai_infra_demo.Chat.Options.{
  Options, Launch, once, until_interrupt, launch, default_options, with_pool, pool_size,
  session_args,
}
use ai_infra_demo.MultiSession
use ai_infra_demo.MultiSession.Options.{main_launch}
use ai_infra_demo.Injections.Options.{
  MixedOptions, default_mixed, MixedLaunch, start_mixed, mixed_launch, arguments, mixed, set_chat,
  injector_of, injector_args, read_mode, multi_turn, Mode, InjectorArgs,
}

-- The launch of the same sessions with `--continuous`.
abbrev pub going_on : Launch → Launch
going_on (once c args) = until_interrupt c args
going_on l = l

going_on_if :
    (b : Bool) (c : ℕ) (args : SessionArgs)
    → until_interrupt c args ≡ going_on (if b then until_interrupt c args else once c args)
going_on_if true c args = refl
going_on_if false c args = refl

with_pool-going_on :
    (o : Options) (r : Result ℕ)
    → with_pool (record o { continuous = true }) r ≡ going_on (with_pool o r)
with_pool-going_on o (raised e) = refl
with_pool-going_on o (ok c) = going_on_if o.continuous c (session_args o)

abbrev continuous : Options → Options
continuous o = record o { continuous = true }

launch-going_on : (o : Option Options) → launch (Option.map continuous o) ≡ going_on (launch o)
unfolding launch
launch-going_on none = refl
launch-going_on (some o) = with_pool-going_on o (pool_size o.concurrency)

as_map :
    {N : Type 0} (o : Option N) (f : N → N) (g : N → Option N)
    → ((m : N) → g m ≡ some (f m))
    → and_then o g ≡ Option.map f o
as_map none f g e = refl
as_map (some m) f g e = e m

module _ (read_float : Text → Option ℤ) where
  parse_continuous :
      (argv : List Text)
      → parse_args
          (MultiSession.Options.arguments read_float)
          default_options
          (argv ++ codes "--continuous" ∷ [])
        ≡ Option.map continuous
            (parse_args (MultiSession.Options.arguments read_float) default_options argv)
  unfolding kind_of dash_kind exact text_eq
  parse_continuous argv =
      parse_args-append (MultiSession.Options.arguments read_float) default_options argv _
        (_, none, refl)
      ∙ as_map _ continuous _ (λ m.
        parse_args_flag (MultiSession.Options.arguments read_float) (codes "--continuous") [] m refl
          tt
        ∙ parse_args_end (MultiSession.Options.arguments read_float) (continuous m))

  parse_mixed_continuous :
      (argv : List Text)
      → parse_args (arguments read_float) default_mixed (argv ++ codes "--continuous" ∷ [])
        ≡ Option.map (set_chat continuous) (parse_args (arguments read_float) default_mixed argv)
  unfolding kind_of dash_kind exact text_eq
  parse_mixed_continuous argv =
      parse_args-append (arguments read_float) default_mixed argv _ (_, none, refl)
      ∙ as_map _ (set_chat continuous) _ (λ m.
        parse_args_flag (arguments read_float) (codes "--continuous") [] m refl tt
        ∙ parse_args_end (arguments read_float) (set_chat continuous m))

  start_going_on :
      (o : Option MixedOptions)
      → Option.map start_mixed (Option.map (set_chat continuous) o)
        ≡ Option.map
            (λ (l : MixedLaunch). record l { sessions = going_on l.sessions })
            (Option.map start_mixed o)
  start_going_on none = refl
  start_going_on (some o) =
      ap (λ l. some (record { injector = injector_of o.mode (injector_args o); sessions = l }))
        (launch-going_on (some o.chat))

  -- `--continuous` at the end of any command line of the three chat load tests makes of a run of the
  -- first sessions one that goes on until Ctrl-C, and changes neither the sessions, nor their number, nor
  -- the injector, nor whether the script stops before it starts any.
  pub launches-continuous :
      (argv : List Text)
      → (main_launch read_float (argv ++ codes "--continuous" ∷ [])
          ≡ going_on (main_launch read_float argv))
        × (mixed_launch read_float (argv ++ codes "--continuous" ∷ [])
            ≡ Option.map
                (λ (l : MixedLaunch). record l { sessions = going_on l.sessions })
                (mixed_launch read_float argv))
  unfolding main_launch mixed_launch
  launches-continuous argv = (
    ap launch (parse_continuous argv) ∙ launch-going_on _,
    ap (Option.map start_mixed) (parse_mixed_continuous argv) ∙ start_going_on _,
  )

-- The injector sends its requests to the server and the model of the sessions.
abbrev pub SameServer : InjectorArgs → Launch → Type 0
SameServer inj (once c args) = (inj.url ≡ args.url) × (inj.model ≡ args.model)
SameServer inj (until_interrupt c args) = (inj.url ≡ args.url) × (inj.model ≡ args.model)
SameServer inj l = Unit

module _ (inj : InjectorArgs) (args : SessionArgs)
    (same : (inj.url ≡ args.url) × (inj.model ≡ args.model)) where
  SameServer-if :
      (b : Bool) (c : ℕ) → SameServer inj (if b then until_interrupt c args else once c args)
  SameServer-if true c = same
  SameServer-if false c = same

with_pool-SameServer :
    (o : MixedOptions) (r : Result ℕ) → SameServer (injector_args o) (with_pool o.chat r)
with_pool-SameServer o (raised e) = tt
with_pool-SameServer o (ok c) =
    SameServer-if (injector_args o) (session_args o.chat) (refl, refl) o.chat.continuous c

some_injective : {a b : MixedLaunch} → some a ≡ some b → a ≡ b
some_injective e = cc

abbrev in_mode : Mode → MixedOptions → MixedOptions
in_mode m o = record o { mode = m }

-- What the two modes make of options of which the launch is l.
abbrev Modes : Option MixedOptions → MixedLaunch → Type 0
Modes o l =
    (inj : InjectorArgs) × (Option.map start_mixed (Option.map (in_mode mixed) o)
      ≡ some (record l { injector = some inj }))
    × (Option.map start_mixed (Option.map (in_mode multi_turn) o)
        ≡ some (record l { injector = none }))
    × SameServer inj l.sessions

start_mixed-Modes : (o : MixedOptions) → Modes (some o) (start_mixed o)
unfolding launch
start_mixed-Modes o =
    (injector_args o, refl, refl, with_pool-SameServer o (pool_size o.chat.concurrency))

with_mode :
    (o : Option MixedOptions) (l : MixedLaunch) → Option.map start_mixed o ≡ some l → Modes o l
with_mode none l e = cc
with_mode (some o) l e = subst (Modes (some o)) (some_injective e) (start_mixed-Modes o)

module _ (read_float : Text → Option ℤ) where
  parse_mode :
      (argv : List Text) (t : Text) (m : Mode)
      → kind_of (arguments read_float) t ≡ value
      → read_mode t ≡ some m
      → parse_args (arguments read_float) default_mixed (argv ++ codes "--mode" ∷ t ∷ [])
        ≡ Option.map (in_mode m) (parse_args (arguments read_float) default_mixed argv)
  unfolding kind_of dash_kind exact text_eq
  parse_mode argv t m is_value reads =
      parse_args-append (arguments read_float) default_mixed argv _ (_, none, refl)
      ∙ as_map _ (in_mode m) _ (λ o.
        parse_args_accepts (arguments read_float) (codes "--mode") t [] o _ refl is_value
          (ap (Option.map _) reads) tt
        ∙ parse_args_end (arguments read_float) (in_mode m o))

  -- Where a command line is accepted, `--mode mixed` at its end adds an injector that sends its requests
  -- to the server and the model of the sessions, `--mode multi-turn` takes it away, and both leave the
  -- sessions as they are.
  pub mixed_launch-mode :
      (argv : List Text) (l : MixedLaunch)
      → mixed_launch read_float argv ≡ some l
      → (inj : InjectorArgs) × (mixed_launch read_float
            (argv ++ codes "--mode" ∷ codes "mixed" ∷ [])
          ≡ some (record l { injector = some inj }))
        × (mixed_launch read_float (argv ++ codes "--mode" ∷ codes "multi-turn" ∷ [])
            ≡ some (record l { injector = none }))
        × SameServer inj l.sessions
  unfolding mixed_launch text_eq
  mixed_launch-mode argv l e =
      let (inj, mixed_on, mixed_off, same) =
        with_mode (parse_args (arguments read_float) default_mixed argv) l e in
      (
        inj,
        ap (Option.map start_mixed)
              (parse_mode argv (codes "mixed") mixed (kind_of_plain _ _ refl) refl)
            ∙ mixed_on,
        ap (Option.map start_mixed)
              (parse_mode argv (codes "multi-turn") multi_turn (kind_of_plain _ _ refl) refl)
            ∙ mixed_off,
        same,
      )
