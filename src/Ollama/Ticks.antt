-- ===== src/Ollama/Ticks.antt =====
-- When the last chunk of a response is read, apart from what the other chunks hold.
use ai_infra_demo.Base.{
  ℕ, suc, ◌+◌, ◌≡◌, refl, sym, Bool, false, Option, none, some, List, [], ◌∷◌, Bool-cases, inl, inr,
  if◌then◌else◌,
}
use ai_infra_demo.Py.Result.{
  Result, ok, raised, or_raise, Result-cases, unicode_decode_error, json_decode_error,
}
use ai_infra_demo.Py.Text.{Text, codes, strip, decode}
use ai_infra_demo.Py.Json.{Json, bool, get, truthy, empty_str}
use ai_infra_demo.Effects.{Event, line, broken, Env, World, and_then, perf_counter}
use ai_infra_demo.Inference.{Stream}
use ai_infra_demo.Ollama.{
  handle_chunk, handle_stripped, handle_chunk_line, chunk_loop, keep_token, token_reader,
}

-- Whether a chunk is the last.
abbrev is_last : Result Json → Option Bool
is_last (ok done) = some (truthy done)
is_last (raised e) = none

abbrev chunk_done : Result Json → Option Bool
chunk_done (ok chunk) = is_last (get (codes "done") (bool false) chunk)
chunk_done (raised e) = none

-- The clock is read at a line of JSON, and at no other.
abbrev text_done : Env → Text → Option Bool
text_done env [] = none
text_done env (c ∷ t) = chunk_done (or_raise json_decode_error (env.loads (c ∷ t)))

abbrev decoded_done : Env → Result Text → Option Bool
decoded_done env (ok t) = text_done env (strip t)
decoded_done env (raised e) = none

abbrev line_done : Env → Event → Option Bool
line_done env (line raw_line) = decoded_done env (or_raise unicode_decode_error (decode raw_line))
line_done env broken = none

module _ (env : Env) where
  abbrev after_line : ℕ → ℕ → Option ℕ → (ℕ → ℕ → Option ℕ → Option ℕ) → Option Bool → Option ℕ
  after_line now n before rest none = rest now n before
  after_line now n before rest (some last) =
      rest (now + env.gap n) (suc n) (if last then some (now + env.gap n) else before)

  -- The time of the last chunk that says `done`, where the clock stands at `now` after n readings and one
  -- was read before at `before`.
  unfoldable pub done_time : List Event → ℕ → ℕ → Option ℕ → Option ℕ
  done_time [] now n before = before
  done_time (e ∷ es) now n before = after_line now n before (done_time es) (line_done env e)

  abbrev Ticks : Option Bool → Stream → World → Result Stream × World → Type 0
  Ticks o s w (raised e, u) = Unit
  Ticks none s w (ok s', u) = (s'.t_done ≡ s.t_done) × (u.now ≡ w.now) × (u.readings ≡ w.readings)
  Ticks (some last) s w (ok s', u) =
      (s'.t_done ≡ (if last then some (w.now + env.gap w.readings) else s.t_done))
      × (u.now ≡ w.now + env.gap w.readings)
      × (u.readings ≡ suc w.readings)

  keep_token-t_done : (now : ℕ) (v : Json) (s : Stream) → (keep_token now v s).t_done ≡ s.t_done
  keep_token-t_done now v s = elim (Bool-cases (truthy v)) [
    | inl some_text ↦ rw some_text refl
    | inr no_text ↦ rw no_text refl
  ]

  handle_chunk-Ticks :
      (chunk : Json) (s : Stream) (w u : World)
      → u.now ≡ w.now + env.gap w.readings
      → u.readings ≡ suc w.readings
      → Ticks
          (chunk_done (ok chunk))
          s
          w
          (handle_chunk env token_reader chunk (w.now + env.gap w.readings) s u)
  unfolding handle_chunk
  handle_chunk-Ticks chunk s w u now count =
      elim (Result-cases (get (codes "done") (bool false) chunk)) [
        | inr (x, e) ↦ rw e tt
        | inl (done, e) ↦ rw e (elim (Bool-cases (truthy done)) [
          | inl last ↦ rw last (refl, now, count)
          | inr more ↦ rw more (elim (Result-cases (get (codes "response") empty_str chunk)) [
            | inl (v, f) ↦ rw f (keep_token-t_done (w.now + env.gap w.readings) v s, now, count)
            | inr (x, f) ↦ rw f tt
          ])
        ])
      ]

  handle_stripped-Ticks :
      (t : Text) (s : Stream) (w : World)
      → Ticks (text_done env t) s w (handle_stripped env token_reader t s w)
  unfolding handle_stripped perf_counter
  handle_stripped-Ticks [] s w = (refl, refl, refl)
  handle_stripped-Ticks (c ∷ t) s w =
      elim (Result-cases (or_raise json_decode_error (env.loads (c ∷ t)))) [
        | inl (chunk, e) ↦ rw e (handle_chunk-Ticks chunk s w _ refl refl)
        | inr (x, e) ↦ rw e tt
      ]

  handle_chunk_line-Ticks :
      (e : Event) (s : Stream) (w : World)
      → Ticks (line_done env e) s w (handle_chunk_line env token_reader e s w)
  unfolding handle_chunk_line
  handle_chunk_line-Ticks broken s w = tt
  handle_chunk_line-Ticks (line raw_line) s w =
      elim (Result-cases (or_raise unicode_decode_error (decode raw_line))) [
        | inl (t, e) ↦ rw e (handle_stripped-Ticks (strip t) s w)
        | inr (x, e) ↦ rw e tt
      ]

  -- Where no line raises, the loop keeps the time of the last chunk that says `done`.
  abbrev pub IsDoneAt : Option ℕ → Result Stream × World → Type 0
  IsDoneAt o (ok s, u) = s.t_done ≡ o
  IsDoneAt o (raised e, u) = Unit

  after_line-IsDoneAt :
      (o : Option Bool) (es : List Event) (s : Stream) (w : World) (m : Result Stream × World)
      → Ticks o s w m
      → ((t : Stream) (u : World)
          → IsDoneAt (done_time es u.now u.readings t.t_done) (chunk_loop env token_reader es t u))
      → IsDoneAt
          (after_line w.now w.readings s.t_done (done_time es) o)
          (and_then m (chunk_loop env token_reader es))
  after_line-IsDoneAt o es s w (raised e, u) ticks ih = tt
  after_line-IsDoneAt none es s w (ok t, u) (d, n, r) ih = rw (sym d, sym n, sym r) (ih t u)
  after_line-IsDoneAt (some last) es s w (ok t, u) (d, n, r) ih = rw (sym d, sym n, sym r) (ih t u)

  pub chunk_loop-IsDoneAt :
      (es : List Event) (s : Stream) (w : World)
      → IsDoneAt (done_time es w.now w.readings s.t_done) (chunk_loop env token_reader es s w)
  unfolding chunk_loop done_time
  chunk_loop-IsDoneAt [] s w = refl
  chunk_loop-IsDoneAt (e ∷ es) s w =
      after_line-IsDoneAt (line_done env e) es s w (handle_chunk_line env token_reader e s w)
        (handle_chunk_line-Ticks e s w) (chunk_loop-IsDoneAt es)
