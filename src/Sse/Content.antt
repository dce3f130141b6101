-- ===== src/Sse/Content.antt =====
-- What the streaming loop reads, as a function of the lines alone: neither the clock nor the
-- accumulators take part.
use mathlib.Core.List.{foldl}
use ai_infra_demo.Base.{
  ℕ, ◌+◌, ◌≡◌, refl, ap, ◌∙◌, inl, inr, Bool, true, false, List, [], ◌∷◌, drop, arith, Bool-cases,
  Option-cases, if◌then◌else◌,
}
use ai_infra_demo.Py.Result.{
  Result, ok, raised, ◌>>=◌, map_ok, or_raise, unicode_decode_error, json_decode_error, read_error,
}
use ai_infra_demo.Py.Text.{Text, text_eq, starts_with, strip, decode}
use ai_infra_demo.Py.Json.{Json, truthy}
use ai_infra_demo.Effects.{Event, line, broken, Env, World, Action, and_then, perf_counter}
use ai_infra_demo.Sse.{
  data_prefix, done_mark, Flow, go_on, leave, resume, Reader, handle_data, handle_text, handle_line,
  handle_event, sse_loop,
}

-- What a line says.
pub data Piece : Type 0 where
  skipped ended : Piece
  text : Json → Piece

-- A piece and what the lines after it give; an empty text leaves nothing.
abbrev pub texts_from : Result (List Json) → Piece → Result (List Json)
texts_from rest skipped = rest
texts_from rest ended = ok []
texts_from rest (text v) = if truthy v then map_ok (λ vs. v ∷ vs) rest else rest

module _ (env : Env) (extract : Json → Result Json) where
  abbrev pub payload_piece : Text → Result Piece
  payload_piece d =
      if text_eq d done_mark
      then ok ended
      else (or_raise json_decode_error (env.loads d) >>= λ chunk. map_ok text (extract chunk))

  abbrev pub line_piece : Text → Result Piece
  line_piece t = if starts_with t data_prefix then payload_piece (drop 6 t) else ok skipped

  unfoldable pub piece : Event → Result Piece
  piece (line raw) = or_raise unicode_decode_error (decode raw) >>= λ t. line_piece (strip t)
  piece broken = raised read_error

  -- The non-empty texts up to the end mark; an error before it is the outcome.
  unfoldable pub texts : List Event → Result (List Json)
  unfolding piece
  texts [] = ok []
  texts (e ∷ es) = piece e >>= texts_from (texts es)

module _ (env : Env) {S : Type 0} (reader : Reader S) where
  abbrev pub reading : World → ℕ
  reading w = w.now + env.gap w.readings

  abbrev pub outcome : World → S → Piece → Flow S
  outcome w s skipped = go_on s
  outcome w s ended = leave (reader.finish (reading w) s)
  outcome w s (text v) = go_on (if truthy v then reader.token (reading w) v s else s)

  handle_data-piece :
      (d : Text) (s : S) (w : World)
      → (handle_data env reader d s w).0 ≡ map_ok (outcome w s) (payload_piece env reader.extract d)
  unfolding handle_data perf_counter
  handle_data-piece d s w = elim (Bool-cases (text_eq d done_mark)) [
    | inl stop ↦ rw stop refl
    | inr other ↦ rw other (ground arith)
  ]

  handle_text-piece :
      (t : Text) (s : S) (w : World)
      → (handle_text env reader t s w).0 ≡ map_ok (outcome w s) (line_piece env reader.extract t)
  unfolding handle_text starts_with
  handle_text-piece [] s w = refl
  handle_text-piece (c ∷ t) s w = elim (Bool-cases (starts_with (c ∷ t) data_prefix)) [
    | inl data_line ↦ rw data_line (handle_data-piece (drop 6 (c ∷ t)) s w)
    | inr other ↦ rw other refl
  ]

  handle_event-piece :
      (e : Event) (s : S) (w : World)
      → (handle_event env reader e s w).0 ≡ map_ok (outcome w s) (piece env reader.extract e)
  unfolding handle_event piece
  handle_event-piece broken s w = refl
  handle_event-piece (line raw) s w = elim (Option-cases (decode raw)) [
    | inl bad ↦ rw (bad, handle_line) refl
    | inr (t, good) ↦ rw (good, handle_line) (handle_text-piece (strip t) s w)
  ]

-- `view` is what a script keeps of the texts, `add` how a text changes it.
module _ (env : Env) {S X : Type 0} (reader : Reader S) (view : S → X) (add : X → Json → X)
    (view-token : (t : ℕ) (v : Json) (s : S) → view (reader.token t v s) ≡ add (view s) v)
    (view-finish : (t : ℕ) (s : S) → view (reader.finish t s) ≡ view s) where
  foldl-cons :
      (x : X) (v : Json) (after : Result (List Json))
      → map_ok (foldl add (add x v)) after ≡ map_ok (foldl add x) (map_ok (λ vs. v ∷ vs) after)
  foldl-cons x v (ok vs) = refl
  foldl-cons x v (raised e) = refl

  keep-text :
      (b : Bool) (after : Result (List Json)) (s : S) (v : Json) (t : ℕ) (run : S → Result S)
      → ((s' : S) → map_ok view (run s') ≡ map_ok (foldl add (view s')) after)
      → map_ok view (run (if b then reader.token t v s else s))
        ≡ map_ok (foldl add (view s)) (if b then map_ok (λ vs. v ∷ vs) after else after)
  keep-text true after s v t run h =
      h (reader.token t v s)
      ∙ ap (λ x. map_ok (foldl add x) after) (view-token t v s)
      ∙ foldl-cons (view s) v after
  keep-text false after s v t run h = h s

  resume-texts :
      (rest : S → Action S) (after : Result (List Json)) (s : S) (w w' : World) (p : Result Piece)
      (r : Result (Flow S))
      → r ≡ map_ok (outcome env reader w s) p
      → ((s' : S) → map_ok view (rest s' w').0 ≡ map_ok (foldl add (view s')) after)
      → map_ok view (and_then (r, w') (resume rest)).0
        ≡ map_ok (foldl add (view s)) (p >>= texts_from after)
  resume-texts rest after s w w' (raised x) r e h = rw e refl
  resume-texts rest after s w w' (ok skipped) r e h = rw e (h s)
  resume-texts rest after s w w' (ok ended) r e h =
      rw e (ap ok (view-finish (reading env reader w) s))
  resume-texts rest after s w w' (ok (text v)) r e h =
      rw e (keep-text (truthy v) after s v (reading env reader w) (λ s'. (rest s' w').0) h)

  -- The loop keeps the texts before the end mark, in order, or raises the first error before it.
  pub sse_loop-texts :
      (es : List Event) (s : S) (w : World)
      → map_ok view (sse_loop env reader es s w).0
        ≡ map_ok (foldl add (view s)) (texts env reader.extract es)
  unfolding sse_loop texts
  sse_loop-texts [] s w = refl
  sse_loop-texts (e ∷ es) s w =
      resume-texts (sse_loop env reader es) (texts env reader.extract es) s w
        (handle_event env reader e s w).1 (piece env reader.extract e)
        (handle_event env reader e s w).0 (handle_event-piece env reader e s w)
        (λ s'. sse_loop-texts es s' (handle_event env reader e s w).1)
