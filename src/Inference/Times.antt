-- ===== src/Inference/Times.antt =====
-- The times of a request are in order, and the figures' inputs are what they stand for.
use mathlib.Core.List.{head?}
use ai_infra_demo.Base.{
  ℕ, ◌+◌, ◌≤◌, ◌≡◌, refl, ◌⊎◌, inl, inr, Option, none, some, List, [], ◌∷◌, ◌++◌, length,
  length-append, arith, Bool-cases, ◌==◌,
}
use ai_infra_demo.Py.Result.{Result}
use ai_infra_demo.Py.Json.{Json}
use ai_infra_demo.Effects.{Event, Request, Env, World, perf_counter, urlopen, events_of}
use ai_infra_demo.Sse.Timing.{Ensures, and_then-Ensures, result-Ensures, sse_loop-Ensures}
use ai_infra_demo.Sse.{sse_loop}
use ai_infra_demo.Inference.{
  Stream, no_tokens, or_first, add_token, stream_reader, or_time, or_now, Timed, timed_request,
}

-- From `lo` to `hi` through the times of a list.
abbrev pub IsAscending : ℕ → List ℕ → ℕ → Type 0
IsAscending lo [] hi = lo ≤ hi
IsAscending lo (t ∷ ts) hi = (lo ≤ t) × IsAscending t ts hi

pub IsAscending-le : (lo : ℕ) (ts : List ℕ) (hi : ℕ) → IsAscending lo ts hi → lo ≤ hi
IsAscending-le lo [] hi h = h
IsAscending-le lo (t ∷ ts) hi h = omega (arith, IsAscending-le t ts hi h.1)

pub IsAscending-mono :
    (lo : ℕ) (ts : List ℕ) (hi hi' : ℕ) → hi ≤ hi' → IsAscending lo ts hi → IsAscending lo ts hi'
IsAscending-mono lo [] hi hi' le h = omega arith
IsAscending-mono lo (t ∷ ts) hi hi' le h = (h.0, IsAscending-mono t ts hi hi' le h.1)

pub IsAscending-snoc :
    (lo : ℕ) (ts : List ℕ) (t : ℕ) → IsAscending lo ts t → IsAscending lo (ts ++ t ∷ []) t
IsAscending-snoc lo [] t h = omega arith
IsAscending-snoc lo (s ∷ ts) t h = (h.0, IsAscending-snoc s ts t h.1)

-- What the loop has kept at the time `now`, of a request sent at `sent`.
record IsRunning (sent : ℕ) (s : Stream) (now : ℕ) : Type 0 where
  ascending : IsAscending sent s.token_times now
  first : s.t_first_token ≡ head? s.token_times
  counted : length s.token_times ≡ length s.full_response
  unfinished : s.t_done ≡ none

-- The same when the loop has ended, by the end mark at the time in `t_done` or with the last line.
record IsEnded (sent : ℕ) (s : Stream) (now : ℕ) : Type 0 where
  ascending : IsAscending sent s.token_times now
  first : s.t_first_token ≡ head? s.token_times
  counted : length s.token_times ≡ length s.full_response
  done : (s.t_done ≡ none) ⊎ (s.t_done ≡ some now)

or_first-head :
    (o : Option ℕ) (ts : List ℕ) (now : ℕ) → o ≡ head? ts → or_first o now ≡ head? (ts ++ now ∷ [])
or_first-head o [] now e = rw e
or_first-head o (t ∷ ts) now e = rw e

add_token-IsRunning :
    (sent : ℕ) (s : Stream) (t : ℕ) (v : Json)
    → IsRunning sent s t
    → IsRunning sent (add_token t v s) t
add_token-IsRunning sent s t v r = record {
  ascending = IsAscending-snoc sent s.token_times t r.ascending;
  first = or_first-head s.t_first_token s.token_times t r.first;
  counted = omega (
    arith,
    r.counted,
    length-append s.token_times (t ∷ []),
    length-append s.full_response (v ∷ []),
  );
  unfinished = r.unfinished;
}

sse_loop-IsEnded :
    (env : Env) (extract : Json → Result Json) (es : List Event) (sent : ℕ) (w : World)
    → sent ≤ w.now
    → Ensures (IsEnded sent) (sse_loop env (stream_reader extract) es no_tokens w)
sse_loop-IsEnded env extract es sent w h =
    sse_loop-Ensures env (stream_reader extract) (IsRunning sent) (IsEnded sent)
      (λ s t u le r. record {
        ascending = IsAscending-mono sent s.token_times t u le r.ascending;
        first = r.first;
        counted = r.counted;
        unfinished = r.unfinished;
      })
      (λ s t v r. add_token-IsRunning sent s t v r)
      (λ s t r. record {
        ascending = r.ascending;
        first = r.first;
        counted = r.counted;
        done = inr refl;
      })
      (λ s t r. record {
        ascending = r.ascending;
        first = r.first;
        counted = r.counted;
        done = inl r.unfinished;
      })
      es no_tokens w (record { ascending = h; first = refl; counted = refl; unfinished = refl })

-- The times of a finished request: the first token's time is that of the head of the list, or the
-- end where there is none or where that time is 0.
pub record IsTimed (t : Timed) (now : ℕ) : Type 0 where
  pub sent_first : t.t_request_sent ≤ t.t_first_token
  pub first_done : t.t_first_token ≤ t.t_done
  pub tokens : IsAscending t.t_request_sent t.token_times t.t_done
  pub counted : length t.token_times ≡ length t.full_response
  pub first : t.t_first_token ≡ or_time (head? t.token_times) t.t_done
  pub ended : t.t_done ≤ now

head_bounds :
    (lo hi : ℕ) (ts : List ℕ)
    → IsAscending lo ts hi
    → (lo ≤ or_time (head? ts) hi) × (or_time (head? ts) hi ≤ hi)
head_bounds lo hi [] h = omega arith
head_bounds lo hi (t ∷ ts) h = ground (arith, IsAscending-le t ts hi h.1)

-- Where the loop has ended at `now`, `t_done or perf_counter()` is a time from `now` on.
or_now-Ensures :
    (env : Env) (o : Option ℕ) (w : World)
    → (o ≡ none) ⊎ (o ≡ some w.now)
    → Ensures (λ t u. (w.now ≤ t) × (t ≤ u)) (or_now env o w)
unfolding perf_counter
or_now-Ensures env o w (inl none_yet) = rw none_yet (omega arith)
or_now-Ensures env o w (inr at_now) = rw at_now (elim (Bool-cases (w.now == 0)) [
  | inl origin ↦ rw origin (omega arith)
  | inr later ↦ rw later (omega arith)
])

-- Whatever the server sends, a request that succeeds was sent no later than its first token's time,
-- and that is no later than the end; the times of the tokens ascend between sending and the end, and
-- each kept text has its time.
pub timed_request-IsTimed :
    (env : Env) (extract : Json → Result Json) (req : Request) (w : World)
    → Ensures IsTimed (timed_request env extract req w)
unfolding timed_request perf_counter urlopen
timed_request-IsTimed env extract req w =
    let sent = w.now + env.gap w.readings in
    and_then-Ensures (λ _ u. sent ≤ u) IsTimed _ _
      (result-Ensures (λ u. sent ≤ u) (events_of (env.respond w.requests req)) _ (omega arith))
      λ resp w₁ h₁.
        and_then-Ensures (IsEnded sent) IsTimed _ _ (sse_loop-IsEnded env extract resp sent w₁ h₁)
          λ s w₂ r.
            and_then-Ensures (λ t u. (w₂.now ≤ t) × (t ≤ u)) IsTimed _ _
              (or_now-Ensures env s.t_done w₂ r.done)
              λ t_done w₃ h₃.
                let tokens = IsAscending-mono sent s.token_times w₂.now t_done h₃.0 r.ascending in
                let bounds = head_bounds sent t_done s.token_times tokens in
                record {
                  sent_first = rw r.first bounds.0;
                  first_done = rw r.first bounds.1;
                  tokens = tokens;
                  counted = r.counted;
                  first = rw r.first refl;
                  ended = h₃.1;
                }
