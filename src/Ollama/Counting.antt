-- ===== src/Ollama/Counting.antt =====
-- The request of the Ollama load test beside the measurement: it counts chunks, not texts.
use ai_infra_demo.Base.{
  ℕ, ◌+◌, ◌≤◌, ◌≡◌, refl, false, List, [], ◌∷◌, length, length-append, arith, Bool-cases, inl, inr,
}
use ai_infra_demo.Py.Result.{Result, ok, raised, or_raise, unicode_decode_error, json_decode_error}
use ai_infra_demo.Py.Text.{Text, codes, text_eq, strip, decode}
use ai_infra_demo.Py.Json.{
  Json, Fields, null, bool, int, float, str, arr, obj, end, field, get, field_or, truthy, empty_str,
}
use ai_infra_demo.Effects.{Event, line, broken, Env, World, Action, and_then, perf_counter}
use ai_infra_demo.Inference.{Stream}
use ai_infra_demo.Completions.Load.{Counter}
use ai_infra_demo.Ollama.{
  handle_chunk, handle_stripped, handle_chunk_line, chunk_loop, keep_token, token_reader,
  count_chunk, chunk_counter,
}

-- What a counter has where a measurement has a stream.
abbrev pub Follows : Stream → Counter → Type 0
Follows s c =
    (c.t_first ≡ s.t_first_token) × (c.t_done ≡ s.t_done) × (length s.token_times ≤ c.token_count)

-- Both end at one time, with one exception or with what follows.
abbrev pub FollowsOn : Result Stream × World → Result Counter × World → Type 0
FollowsOn (ok s, w) (ok c, u) = (w ≡ u) × Follows s c
FollowsOn (raised e, w) (raised x, u) = (w ≡ u) × (e ≡ x)
FollowsOn (ok s, w) (raised x, u) = ⊥
FollowsOn (raised e, w) (ok c, u) = ⊥

-- A response that is missing is false for both.
truthy-field_or :
    (k : Text) (fs : Fields) → truthy (field_or k null fs) ≡ truthy (field_or k empty_str fs)
unfolding field_or truthy
truthy-field_or k end = refl
truthy-field_or k (field j v fs) = elim (Bool-cases (text_eq j k)) [
  | inl found ↦ rw found refl
  | inr other ↦ rw other (truthy-field_or k fs)
]

keep-Follows :
    (now : ℕ) (v v' : Json) (s : Stream) (c : Counter)
    → truthy v' ≡ truthy v
    → Follows s c
    → Follows (keep_token now v s) (count_chunk now v' c)
keep-Follows now v v' s c e (first, done, le) = elim (Bool-cases (truthy v)) [
  | inl text ↦
      rw (e, text, first) (refl, done, omega (arith, le, length-append s.token_times (now ∷ [])))
  | inr empty ↦ rw (e, empty) (first, done, omega (arith, le))
]

module _ (env : Env) where
  response-FollowsOn :
      (chunk : Json) (now : ℕ) (s : Stream) (c : Counter) (w : World)
      → Follows s c
      → FollowsOn
          (and_then
            (get (codes "response") empty_str chunk, w)
            (λ v u. (ok (keep_token now v s), u)))
          (and_then (get (codes "response") null chunk, w) (λ v u. (ok (count_chunk now v c), u)))
  unfolding get
  response-FollowsOn (obj fs) now s c w f =
      (refl, keep-Follows now _ _ s c (truthy-field_or (codes "response") fs) f)
  response-FollowsOn null now s c w f = (refl, refl)
  response-FollowsOn (bool b) now s c w f = (refl, refl)
  response-FollowsOn (int n) now s c w f = (refl, refl)
  response-FollowsOn (float m k) now s c w f = (refl, refl)
  response-FollowsOn (str t) now s c w f = (refl, refl)
  response-FollowsOn (arr xs) now s c w f = (refl, refl)

  lift-FollowsOn :
      {A : Type 0} (r : Result A) (w : World) (k : A → Action Stream) (k' : A → Action Counter)
      → ((a : A) → FollowsOn (k a w) (k' a w))
      → FollowsOn (and_then (r, w) k) (and_then (r, w) k')
  lift-FollowsOn (ok a) w k k' h = h a
  lift-FollowsOn (raised e) w k k' h = (refl, refl)

  handle_chunk-FollowsOn :
      (chunk : Json) (now : ℕ) (s : Stream) (c : Counter) (w : World)
      → Follows s c
      → FollowsOn
          (handle_chunk env token_reader chunk now s w)
          (handle_chunk env chunk_counter chunk now c w)
  unfolding handle_chunk
  handle_chunk-FollowsOn chunk now s c w f =
      lift-FollowsOn (get (codes "done") (bool false) chunk) w _ _ λ done.
        elim (Bool-cases (truthy done)) [
          | inl last ↦ rw last (refl, (f.0, refl, f.2))
          | inr more ↦ rw more (response-FollowsOn chunk now s c w f)
        ]

  handle_stripped-FollowsOn :
      (t : Text) (s : Stream) (c : Counter) (w : World)
      → Follows s c
      → FollowsOn (handle_stripped env token_reader t s w) (handle_stripped env chunk_counter t c w)
  unfolding handle_stripped perf_counter
  handle_stripped-FollowsOn [] s c w f = (refl, f)
  handle_stripped-FollowsOn (x ∷ t) s c w f =
      lift-FollowsOn (or_raise json_decode_error (env.loads (x ∷ t))) w _ _
        λ chunk. handle_chunk-FollowsOn chunk (w.now + env.gap w.readings) s c _ f

  handle_chunk_line-FollowsOn :
      (e : Event) (s : Stream) (c : Counter) (w : World)
      → Follows s c
      → FollowsOn
          (handle_chunk_line env token_reader e s w)
          (handle_chunk_line env chunk_counter e c w)
  unfolding handle_chunk_line
  handle_chunk_line-FollowsOn broken s c w f = (refl, refl)
  handle_chunk_line-FollowsOn (line raw) s c w f =
      lift-FollowsOn (or_raise unicode_decode_error (decode raw)) w _ _
        λ t. handle_stripped-FollowsOn (strip t) s c w f

  then-FollowsOn :
      (m : Result Stream × World) (m' : Result Counter × World) (k : Stream → Action Stream)
      (k' : Counter → Action Counter)
      → FollowsOn m m'
      → ((s : Stream) (c : Counter) (w : World) → Follows s c → FollowsOn (k s w) (k' c w))
      → FollowsOn (and_then m k) (and_then m' k')
  then-FollowsOn (ok s, w) (ok c, u) k k' (e, f) h = rw e (h s c u f)
  then-FollowsOn (raised x, w) (raised y, u) k k' f h = f
  then-FollowsOn (ok s, w) (raised y, u) k k' f h = absurd f
  then-FollowsOn (raised x, w) (ok c, u) k k' f h = absurd f

  -- Reading one response from corresponding states, the load test and the measurement take the same
  -- time and raise the same exceptions, with the same times of the first text and of the last
  -- chunk, but the load test counts at least as many tokens as the measurement.
  pub chunk_loop-FollowsOn :
      (es : List Event) (s : Stream) (c : Counter) (w : World)
      → Follows s c
      → FollowsOn (chunk_loop env token_reader es s w) (chunk_loop env chunk_counter es c w)
  unfolding chunk_loop
  chunk_loop-FollowsOn [] s c w f = (refl, f)
  chunk_loop-FollowsOn (e ∷ es) s c w f =
      then-FollowsOn (handle_chunk_line env token_reader e s w)
        (handle_chunk_line env chunk_counter e c w) (chunk_loop env token_reader es)
        (chunk_loop env chunk_counter es) (handle_chunk_line-FollowsOn e s c w f)
        (λ s' c' w' f'. chunk_loop-FollowsOn es s' c' w' f')
