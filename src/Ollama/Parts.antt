-- ===== src/Ollama/Parts.antt =====
-- What the chunks of a response hold, apart from the clock, and what the scripts make of them.
use mathlib.Core.List.{append_assoc, append-nil}
use ai_infra_demo.Base.{
  ℕ, ◌+◌, ◌≡◌, refl, sym, ap, ◌∙◌, Bool, true, false, ◌||◌, Option, none, some, List, [], ◌∷◌, ◌++◌,
  Bool-cases, inl, inr, if◌then◌else◌,
}
use ai_infra_demo.Py.Result.{
  Result, ok, raised, ◌>>=◌, map_ok, or_raise, unicode_decode_error, json_decode_error, read_error,
}
use ai_infra_demo.Py.Text.{Text, codes, strip, decode}
use ai_infra_demo.Py.Json.{Json, bool, get, truthy, empty_str}
use ai_infra_demo.Effects.{Event, line, broken, Env, World, Action, and_then, perf_counter}
use ai_infra_demo.Inference.{Stream}
use ai_infra_demo.Ollama.{
  handle_chunk, handle_stripped, handle_chunk_line, chunk_loop, keep_token, token_reader,
}

-- The texts of some chunks that have one, and whether one of them is the last.
abbrev pub Parts : Type 0
Parts = List Json × Bool

abbrev if_truthy : Json → List Json
if_truthy v = if truthy v then v ∷ [] else []

unfoldable pub chunk_parts : Json → Result Parts
chunk_parts chunk = get (codes "done") (bool false) chunk >>= λ done.
    if truthy done
    then ok ([], true)
    else (get (codes "response") empty_str chunk >>= λ v. ok (if_truthy v, false))

unfoldable pub text_parts : Env → Text → Result Parts
unfolding chunk_parts
text_parts env [] = ok ([], false)
text_parts env (c ∷ t) = or_raise json_decode_error (env.loads (c ∷ t)) >>= chunk_parts

unfoldable pub line_parts : Env → Event → Result Parts
unfolding text_parts
line_parts env (line raw_line) =
    or_raise unicode_decode_error (decode raw_line) >>= λ t. text_parts env (strip t)
line_parts env broken = raised read_error

abbrev pub joined : Parts → Parts → Parts
joined (vs, d) (us, b) = (vs ++ us, d || b)

-- The parts of a whole response, or the first exception that a line causes.
unfoldable pub parts : Env → List Event → Result Parts
unfolding line_parts
parts env [] = ok ([], false)
parts env (e ∷ es) = line_parts env e >>= λ p. parts env es >>= λ q. ok (joined p q)

abbrev pub is_some : Option ℕ → Bool
is_some none = false
is_some (some t) = true

abbrev pub parts_of : Stream → Parts
parts_of s = (s.full_response, is_some s.t_done)

-- What an action adds to the parts that were there.
abbrev pub Adds : Parts → Result Parts → Result Stream × World → Type 0
Adds p r (m, w) = map_ok parts_of m ≡ (r >>= λ q. ok (joined p q))

false_right : (d : Bool) → (d || false) ≡ d
false_right true = refl
false_right false = refl

true_right : (d : Bool) → (d || true) ≡ true
true_right true = refl
true_right false = refl

or_assoc : (a b c : Bool) → ((a || b) || c) ≡ (a || (b || c))
or_assoc true b c = refl
or_assoc false b c = refl

joined_none : (vs : List Json) (d : Bool) → (vs, d) ≡ joined (vs, d) ([], false)
joined_none vs d = rw (append-nil vs, false_right d) refl

joined_last : (vs : List Json) (d : Bool) → (vs, true) ≡ joined (vs, d) ([], true)
joined_last vs d = rw (append-nil vs, true_right d) refl

joined_assoc : (p q r : Parts) → joined (joined p q) r ≡ joined p (joined q r)
joined_assoc (vs, a) (us, b) (ts, c) = rw (append_assoc vs us ts, or_assoc a b c) refl

lift-Adds :
    {A : Type 0} (p : Parts) (r : Result A) (f : A → Result Parts) (k : A → Action Stream)
    (w : World)
    → ((a : A) → Adds p (f a) (k a w))
    → Adds p (r >>= f) (and_then (r, w) k)
lift-Adds p (ok a) f k w h = h a
lift-Adds p (raised e) f k w h = refl

joined-bind :
    (s : Stream) (p q : Parts) (r : Result Parts) (m : Result Stream × World)
    → ok (parts_of s) ≡ ok (joined p q)
    → Adds (parts_of s) r m
    → Adds p (r >>= λ b. ok (joined q b)) m
joined-bind s p q (raised x) m e h = h
joined-bind s p q (ok b) m e h =
    h ∙ ap (λ (r : Result Parts). r >>= λ a. ok (joined a b)) e ∙ ap ok (joined_assoc p q b)

then-Adds :
    (p : Parts) (r r' : Result Parts) (m : Result Stream × World) (k : Stream → Action Stream)
    → Adds p r m
    → ((s : Stream) (w : World) → Adds (parts_of s) r' (k s w))
    → Adds p (r >>= λ a. r' >>= λ b. ok (joined a b)) (and_then m k)
then-Adds p (ok q) r' (ok s, w) k e h = joined-bind s p q r' (k s w) e (h s w)
then-Adds p (ok q) r' (raised x, w) k e h = cc
then-Adds p (raised y) r' (ok s, w) k e h = cc
then-Adds p (raised y) r' (raised x, w) k e h = e

module _ (env : Env) where
  keep_token-Adds :
      (now : ℕ) (v : Json) (s : Stream) (w : World)
      → Adds (parts_of s) (ok (if_truthy v, false)) (ok (keep_token now v s), w)
  keep_token-Adds now v s w = elim (Bool-cases (truthy v)) [
    | inl text ↦
        rw (text, keep_token)
          (ap (λ d. ok (s.full_response ++ v ∷ [], d)) (sym (false_right (is_some s.t_done))))
    | inr empty ↦ rw (empty, keep_token) (ap ok (joined_none s.full_response (is_some s.t_done)))
  ]

  handle_chunk-Adds :
      (chunk : Json) (now : ℕ) (s : Stream) (w : World)
      → Adds (parts_of s) (chunk_parts chunk) (handle_chunk env token_reader chunk now s w)
  unfolding handle_chunk chunk_parts
  handle_chunk-Adds chunk now s w =
      lift-Adds (parts_of s) (get (codes "done") (bool false) chunk) _ _ w λ done.
        elim (Bool-cases (truthy done)) [
          | inl last ↦ rw last (ap ok (joined_last s.full_response (is_some s.t_done)))
          | inr more ↦ rw more (
              lift-Adds (parts_of s) (get (codes "response") empty_str chunk) _ _ w
                λ v. keep_token-Adds now v s w)
        ]

  handle_stripped-Adds :
      (t : Text) (s : Stream) (w : World)
      → Adds (parts_of s) (text_parts env t) (handle_stripped env token_reader t s w)
  unfolding handle_stripped text_parts perf_counter
  handle_stripped-Adds [] s w = ap ok (joined_none s.full_response (is_some s.t_done))
  handle_stripped-Adds (c ∷ t) s w =
      lift-Adds (parts_of s) (or_raise json_decode_error (env.loads (c ∷ t))) chunk_parts _ w
        λ chunk. handle_chunk-Adds chunk (w.now + env.gap w.readings) s _

  handle_chunk_line-Adds :
      (e : Event) (s : Stream) (w : World)
      → Adds (parts_of s) (line_parts env e) (handle_chunk_line env token_reader e s w)
  unfolding handle_chunk_line line_parts
  handle_chunk_line-Adds (line raw) s w =
      lift-Adds (parts_of s) (or_raise unicode_decode_error (decode raw)) _ _ w
        λ t. handle_stripped-Adds (strip t) s w
  handle_chunk_line-Adds broken s w = refl

  -- The loop adds the parts of its lines to what was kept.
  pub chunk_loop-Adds :
      (es : List Event) (s : Stream) (w : World)
      → Adds (parts_of s) (parts env es) (chunk_loop env token_reader es s w)
  unfolding chunk_loop parts
  chunk_loop-Adds [] s w = ap ok (joined_none s.full_response (is_some s.t_done))
  chunk_loop-Adds (e ∷ es) s w =
      then-Adds (parts_of s) (line_parts env e) (parts env es)
        (handle_chunk_line env token_reader e s w) (chunk_loop env token_reader es)
        (handle_chunk_line-Adds e s w) (λ s' w'. chunk_loop-Adds es s' w')
