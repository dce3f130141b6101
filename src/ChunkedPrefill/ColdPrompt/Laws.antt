-- ===== src/ChunkedPrefill/ColdPrompt/Laws.antt =====
-- Every cold prompt holds all topics, and begins like every other.
use mathlib.Core.List.{Perm, append_assoc}
use mathlib.Core.List.Perm
use ai_infra_demo.Base.{
  ℕ, zero, suc, ◌%◌, ◌<◌, ◌≡◌, refl, sym, ◌∙◌, ap, true, some, List, [], ◌∷◌, ◌++◌, length, arith,
}
use ai_infra_demo.Py.Text.{Text, codes, starts_with}
use ai_infra_demo.Py.Text.Laws.{starts_with-append}
use ai_infra_demo.Py.Decimal.{decimal}
use ai_infra_demo.ChunkedPrefill.ColdPrompt.{
  cold_prompt_preamble, cold_prompt_topics, pick, sample, numbered, cold_prompt_close,
  build_cold_prompt,
}

module _ {ℓ} {A : Type ℓ} where
  -- An index below the length picks an element, and leaves the others.
  pick_lem :
      (i : ℕ) (xs : List A)
      → i < length xs
      → (x : A) × (rest : List A) × (pick i xs ≡ some (x, rest))
        × Perm (x ∷ rest) xs
        × (length xs ≡ suc (length rest))
  unfolding pick
  pick_lem i [] h = absurd (omega arith)
  pick_lem zero (x ∷ xs) h = (x, xs, refl, Perm.rfl, refl)
  pick_lem (suc i) (x ∷ xs) h =
      let (y, ys, e, p, len) = pick_lem i xs (omega arith) in
      (y, x ∷ ys, rw e refl, Perm.trans (Perm.swap x y ys) (Perm.cons x p), ap suc len)

  -- As many draws as there are elements give all of them, each once.
  pub sample-perm :
      (draws : ℕ → ℕ) (n : ℕ) (pool : List A) → length pool ≡ n → Perm (sample draws n pool) pool
  unfolding sample
  sample-perm draws zero [] h = Perm.rfl
  sample-perm draws zero (x ∷ xs) h = absurd (omega arith)
  sample-perm draws (suc n) pool h =
      let (x, rest, e, p, len) = pick_lem (draws n % length pool) pool (omega arith) in
      rw (e, sample) (Perm.trans (Perm.cons x (sample-perm draws n rest (omega arith))) p)

-- The lines of a cold prompt are its topics, each once, whatever is drawn.
pub shuffled-perm :
    (draws : ℕ → ℕ)
    → Perm (sample draws (length cold_prompt_topics) cold_prompt_topics) cold_prompt_topics
shuffled-perm draws = sample-perm draws (length cold_prompt_topics) cold_prompt_topics refl

abbrev pub shared_start : Text
shared_start = cold_prompt_preamble ++ 10 ∷ 10 ∷ codes "1. "

numbered-start :
    (t : Text) (ts : List Text) → (rest : Text) × (numbered 0 (t ∷ ts) ≡ codes "1. " ++ rest)
unfolding numbered decimal
numbered-start t [] = (t, refl)
numbered-start t (u ∷ ts) = (t ++ 10 ∷ 10 ∷ numbered 1 (u ∷ ts), refl)

sample-cons :
    {A : Type 0} (draws : ℕ → ℕ) (n : ℕ) (pool : List A)
    → 0 < length pool
    → (x : A) × (xs : List A) × (sample draws (suc n) pool ≡ x ∷ xs)
unfolding sample
sample-cons draws n pool h =
    let (x, rest, e, p, len) = pick_lem (draws n % length pool) pool (omega arith) in
    (x, sample draws n rest, rw (e, sample) refl)

starts_with-build :
    (preamble : Text) (shuffled : Text) (rest : Text)
    → shuffled ≡ codes "1. " ++ rest
    → starts_with
        (preamble ++ (10 ∷ 10 ∷ (shuffled ++ cold_prompt_close)))
        (preamble ++ 10 ∷ 10 ∷ codes "1. ")
      ≡ true
starts_with-build preamble shuffled rest e = rw e (
    ap (λ (t : Text). starts_with t (preamble ++ 10 ∷ 10 ∷ codes "1. "))
      (sym (append_assoc preamble (10 ∷ 10 ∷ codes "1. ") (rest ++ cold_prompt_close)))
    ∙ starts_with-append (preamble ++ 10 ∷ 10 ∷ codes "1. ") (rest ++ cold_prompt_close))

topics_some : 0 < length cold_prompt_topics
unfolding cold_prompt_topics
topics_some = omega arith

length-cold_prompt_topics : length cold_prompt_topics ≡ 14
unfolding cold_prompt_topics
length-cold_prompt_topics = refl

-- All cold prompts begin with the same text, whatever is drawn: the preamble and the first number.
pub build_cold_prompt-shared :
    (draws : ℕ → ℕ) → starts_with (build_cold_prompt draws) shared_start ≡ true
unfolding build_cold_prompt
build_cold_prompt-shared draws =
    let (t, ts, e) = sample-cons draws 13 cold_prompt_topics topics_some in
    let (rest, f) = numbered-start t ts in
    rw length-cold_prompt_topics (
      starts_with-build cold_prompt_preamble (numbered 0 (sample draws 14 cold_prompt_topics)) rest
        (rw e f))
