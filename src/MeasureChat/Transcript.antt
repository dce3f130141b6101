-- ===== src/MeasureChat/Transcript.antt =====
-- What a measured session sends and what it reports.
use mathlib.Core.Path.{subst}
use mathlib.Core.List.{append_assoc, append-nil}
use ai_infra_demo.Base.{
  ℕ, suc, ◌+◌, ◌≡◌, refl, sym, ap, ◌∙◌, List, [], ◌∷◌, ◌++◌, map, length, length-append, take,
  arith,
}
use ai_infra_demo.Base.Int.{ℤ}
use ai_infra_demo.Py.Result.{Result, ok, raised}
use ai_infra_demo.Py.Text.{Text}
use ai_infra_demo.Py.Json.{join}
use ai_infra_demo.Py.Slices.{slice_to}
use ai_infra_demo.Effects.{Request, Env, World, and_then}
use ai_infra_demo.Sse.{chat_text}
use ai_infra_demo.Sse.Quiet.{IsQuiet, IsQuiet-refl, and_then-IsQuiet}
use ai_infra_demo.Inference.{Timed, timed_request, throughput_tps}
use ai_infra_demo.Inference.Sent.{Sent, Sent-quiet, timed_request-Sent}
use ai_infra_demo.Chat.{Message, system_message, user, assistant, chat_request}
use ai_infra_demo.Chat.Prompts.{prompts}
use ai_infra_demo.Chat.Session.Asks.{asked, Asks}
use ai_infra_demo.MeasureChat.{
  measured_turns, TurnFigures, turn_figures, run_inference, Turn, measured_turn, measure_turns,
  run_chat_session,
}

turn_figures-IsQuiet : (t : Timed) (w : World) → IsQuiet w (turn_figures t w).1
unfolding turn_figures
turn_figures-IsQuiet t w =
    and_then-IsQuiet w (throughput_tps t, w) _ (IsQuiet-refl w)
      λ tps u. and_then-IsQuiet u (join t.full_response, u) _ (IsQuiet-refl u) λ r v. IsQuiet-refl v

run_inference-Sent :
    (env : Env) (messages : List Message) (url model : Text) (w : World)
    → Sent (chat_request 200 url model messages) w (run_inference env messages url model w).1
unfolding run_inference
run_inference-Sent env messages url model w =
    let req = chat_request 200 url model messages in
    figures_sent req (timed_request env chat_text req w) (timed_request-Sent env chat_text req w)
  where
    figures_sent :
        (req : Request) (m : Result Timed × World)
        → Sent req w m.1
        → Sent req w (and_then m turn_figures).1
    figures_sent req (ok t, u) s = Sent-quiet req w u _ s (turn_figures-IsQuiet t u)
    figures_sent req (raised e, u) s = s

-- One row for each question and answer, from turn i + 1 on, with m messages before the question.
abbrev pub IsTranscript : ℕ → ℕ → List (Text × Text) → List Turn → Type 0
IsTranscript i m [] [] = Unit
IsTranscript i m [] (r ∷ rs) = ⊥
IsTranscript i m (t ∷ ts) [] = ⊥
IsTranscript i m ((question, answer) ∷ ts) (r ∷ rs) =
    (r.turn ≡ suc i)
    × (r.prompt_messages ≡ m + 1)
    × (r.user_text ≡ question)
    × (r.response_preview ≡ take 120 answer)
    × IsTranscript (suc i) (m + 2) ts rs

abbrev pub Transcribes :
    Text
    → Text
    → ℕ
    → List Text
    → List Message
    → List Turn
    → World
    → Result (List Turn) × World
    → Type 0
Transcribes url model i questions history rows w (ok all, u) =
    (done : List (Text × Text)) × (new : List Turn) × (asked done ≡ questions)
    × (all ≡ rows ++ new)
    × IsTranscript i (length history) done new
    × (u.sent ≡ w.sent ++ map (chat_request 200 url model) (prompts history done))
Transcribes url model i questions history rows w (raised e, u) =
    Asks 200 url model questions history w u

module _ (env : Env) (url model : Text) where
  Transcribes-cons :
      (i : ℕ) (q : Text) (rest : List Text) (history : List Message) (rows : List Turn)
      (w u : World) (result : TurnFigures) (out : Result (List Turn) × World)
      → u.sent ≡ w.sent ++ chat_request 200 url model (history ++ user q ∷ []) ∷ []
      → (let answered = (history ++ user q ∷ []) ++ assistant result.response_full ∷ [] in
          Transcribes url model
            (suc i)
            rest
            answered
            (rows ++ measured_turn i q result answered ∷ [])
            u
            out)
      → Transcribes url model i (q ∷ rest) history rows w out
  unfolding prompts
  Transcribes-cons i q rest history rows w u result (ok all, v) s (done, new, e, k, t, sent) =
      let answered = (history ++ user q ∷ []) ++ assistant result.response_full ∷ [] in
      let grown : length answered ≡ length history + 2 = omega (
        arith,
        length-append (history ++ user q ∷ []) (assistant result.response_full ∷ []),
        length-append history (user q ∷ []),
      ) in
      (
        (q, result.response_full) ∷ done,
        measured_turn i q result answered ∷ new,
        ap (◌∷◌ q) e,
        k ∙ append_assoc rows (measured_turn i q result answered ∷ []) new,
        (
          refl,
          omega (arith, grown),
          refl,
          refl,
          subst (λ m. IsTranscript (suc i) m done new) grown t,
        ),
        sent
            ∙ rw s
                (append_assoc w.sent (chat_request 200 url model (history ++ user q ∷ []) ∷ []) _),
      )
  Transcribes-cons i q rest history rows w u result (raised x, v) s (done, left, e, sent) = (
    (q, result.response_full) ∷ done,
    left,
    ap (◌∷◌ q) e,
    sent ∙ rw s (append_assoc w.sent (chat_request 200 url model (history ++ user q ∷ []) ∷ []) _),
  )

  -- The turn of one question, from its reply on.
  replied-Transcribes :
      (i : ℕ) (q : Text) (rest : List Text) (history : List Message) (rows : List Turn) (w : World)
      (m : Result TurnFigures × World)
      → m.1.sent ≡ w.sent ++ chat_request 200 url model (history ++ user q ∷ []) ∷ []
      → ((h : List Message) (r : List Turn) (u : World)
          → Transcribes url model
              (suc i)
              rest
              h
              r
              u
              (measure_turns env url model (suc i) rest h r u))
      → Transcribes url model i (q ∷ rest) history rows w (
          and_then m λ result.
            let answered = (history ++ user q ∷ []) ++ assistant result.response_full ∷ [] in
            measure_turns env url model
              (suc i)
              rest
              answered
              (rows ++ measured_turn i q result answered ∷ []))
  unfolding prompts
  replied-Transcribes i q rest history rows w (raised e, u) s ih = ((q, []) ∷ [], rest, refl, s)
  replied-Transcribes i q rest history rows w (ok result, u) s ih =
      Transcribes-cons i q rest history rows w u result _ s (ih _ _ u)

  measure_turns-Transcribes :
      (i : ℕ) (questions : List Text) (history : List Message) (rows : List Turn) (w : World)
      → Transcribes url model i questions history rows w
          (measure_turns env url model i questions history rows w)
  unfolding measure_turns prompts
  measure_turns-Transcribes i [] history rows w =
      ([], [], refl, sym (append-nil rows), tt, sym (append-nil w.sent))
  measure_turns-Transcribes i (q ∷ rest) history rows w =
      replied-Transcribes i q rest history rows w
        (run_inference env (history ++ user q ∷ []) url model w)
        (run_inference-Sent env (history ++ user q ∷ []) url model w).sent
        (measure_turns-Transcribes (suc i) rest)

  pub run_chat_session-Transcribes :
      (max_turns : ℤ) (w : World)
      → Transcribes url model 0
          (slice_to max_turns measured_turns)
          (system_message ∷ [])
          []
          w
          (run_chat_session env url model max_turns w)
  unfolding run_chat_session
  run_chat_session-Transcribes max_turns w =
      measure_turns-Transcribes 0 (slice_to max_turns measured_turns) (system_message ∷ []) [] w
