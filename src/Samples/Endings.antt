-- ===== src/Samples/Endings.antt =====
-- Ends of the chat load tests, and the theorems about them.
use mathlib.Core.List.Perm
use ai_infra_demo.Base.{ℕ, ◌≡◌, Bool, false, Option, none, some, List, [], ◌∷◌, ◌++◌}
use ai_infra_demo.Py.Result.{Result, ◌>>=◌}
use ai_infra_demo.Py.Text.{Text, codes}
use ai_infra_demo.Effects.{Env, World}
use ai_infra_demo.Chat.Options.{once}
use ai_infra_demo.ChunkedPrefill.Report as MixedReport
use ai_infra_demo.ChunkedPrefill.Script.{mixed_once}
use ai_infra_demo.ChunkedPrefill.Script as MixedScript
use ai_infra_demo.ChunkedPrefill.Script.Reported.{Outcomes}
use ai_infra_demo.Injections.Mixed.{inject, Mixed}
use ai_infra_demo.Injections.Mixed.Gathered.{begun, injected}
use ai_infra_demo.Injections.Options.{InjectorArgs, mixed_launch}
use ai_infra_demo.Injections.Options.Flags.{SameServer, mixed_launch-mode}
use ai_infra_demo.LocalChunked.{unique_prompt}
use ai_infra_demo.LocalChunked.Prompt.{cold_prompt}
use ai_infra_demo.LocalChunked.Main as LocalMain
use ai_infra_demo.LocalChunked.Main.{local_mixed_launch}
use ai_infra_demo.LocalChunked.Script.{LocalEnds, local_Ends-Reported}
use ai_infra_demo.MultiSession.Report.{Report, report}
use ai_infra_demo.MultiSession.Script.{Ends, gathered}
use ai_infra_demo.MultiSession.Script
use ai_infra_demo.MultiSession.Script.Reported.{Ended, Ends-Reported}
use ai_infra_demo.Pool.{no_sessions, start, read_completed}
use ai_infra_demo.Samples.Server.{sample_env, sample_world}
use ai_infra_demo.Samples.Scripts.{
  no_floats, two_turns, two_turns_args, two_turns_launch, two_sessions, two_sessions_launch,
  two_sessions_launches,
}

abbrev envs : ℕ → Env
envs n = sample_env

abbrev worlds : ℕ → World
worlds n = sample_world

abbrev is_set : ℕ → ℕ → Bool
is_set n i = false

-- Session 2 completes first.
abbrev in_turn : List ℕ
in_turn = 2 ∷ 1 ∷ []

abbrev printed : Result (Option Report)
printed = read_completed (Script.outcome_of envs is_set worlds two_turns_args) in_turn [] >>= report

printed-Ends : Ends no_floats envs is_set worlds two_turns in_turn [] printed
printed-Ends = gathered in_turn [] two_turns_launch (Perm.swap 1 2 [])

Ends-Reported_example : Ended no_floats envs is_set worlds two_turns in_turn [] printed
Ends-Reported_example =
    Ends-Reported no_floats envs is_set worlds two_turns in_turn [] printed printed-Ends

abbrev mixed_sessions : List Text
mixed_sessions = two_sessions ++ codes "--mode" ∷ codes "mixed" ∷ []

abbrev mixed_parts :
    (inj : InjectorArgs) × (mixed_launch no_floats mixed_sessions
      ≡ some (record two_sessions_launch { injector = some inj }))
    × (mixed_launch no_floats (two_sessions ++ codes "--mode" ∷ codes "multi-turn" ∷ [])
        ≡ some (record two_sessions_launch { injector = none }))
    × SameServer inj (once 2 two_turns_args)
mixed_parts = mixed_launch-mode no_floats two_sessions two_sessions_launch two_sessions_launches

local_mixed_parts :
    local_mixed_launch no_floats mixed_sessions
    ≡ some (record two_sessions_launch { injector = some mixed_parts.0 })
unfolding local_mixed_launch
local_mixed_parts = mixed_parts.1

abbrev local_injection : Mixed
local_injection =
    inject sample_env 200 (unique_prompt cold_prompt) mixed_parts.0.url mixed_parts.0.model
      (record { pool = start 2 no_sessions; inject_id = 0; injector = sample_world })

abbrev local_printed : Result (Option MixedReport.Report)
local_printed = MixedReport.report local_injection.pool.all_results

local_printed-Ends :
    LocalEnds no_floats envs is_set worlds sample_env sample_world mixed_sessions []
      (1 ∷ 2 ∷ [])
      1
      local_printed
unfolding inject
local_printed-Ends =
    MixedScript.printed two_turns_args _ local_mixed_parts
      (mixed_once (1 ∷ 2 ∷ []) Perm.rfl (injected begun))

local_Ends-Reported_example :
    Outcomes sample_env 200
      (unique_prompt cold_prompt)
      sample_world
      (LocalMain.session_outcome envs is_set worlds)
      (local_mixed_launch no_floats mixed_sessions)
      []
      (1 ∷ 2 ∷ [])
      1
      local_printed
local_Ends-Reported_example =
    local_Ends-Reported no_floats envs is_set worlds sample_env sample_world mixed_sessions []
      (1 ∷ 2 ∷ []) 1 local_printed local_printed-Ends
