-- ===== src/Chat/Options/Urls.antt =====
-- The URLs that the scripts build from `--url`.
use mathlib.Core.List.{reverse, reverse-append, reverse-reverse, append_assoc, append-nil}
use ai_infra_demo.Base.{ℕ, zero, suc, ◌≡◌, refl, sym, ap, ◌∙◌, false, [], ◌∷◌, ◌++◌, ◌==◌}
use ai_infra_demo.Py.Text.{Text, codes, rstrip, drop_last_while, drop_while}
use ai_infra_demo.Chat.Options.{chat_url}
use ai_infra_demo.LoadTests.{completions_url}

-- n slashes
abbrev pub slashes : ℕ → Text
slashes zero = []
slashes (suc n) = 47 ∷ slashes n

slashes_last : (n : ℕ) → slashes (suc n) ≡ slashes n ++ 47 ∷ []
slashes_last zero = refl
slashes_last (suc n) = ap (◌∷◌ 47) (slashes_last n)

rstrip_last : (t : Text) → rstrip 47 (t ++ 47 ∷ []) ≡ rstrip 47 t
unfolding rstrip drop_last_while drop_while
rstrip_last t = rw (reverse-append t (47 ∷ [])) refl

rstrip-slashes : (t : Text) (n : ℕ) → rstrip 47 (t ++ slashes n) ≡ rstrip 47 t
rstrip-slashes t zero = ap (rstrip 47) (append-nil t)
rstrip-slashes t (suc n) =
    ap (λ s. rstrip 47 (t ++ s)) (slashes_last n)
    ∙ ap (rstrip 47) (sym (append_assoc t (slashes n) (47 ∷ [])))
    ∙ rstrip_last (t ++ slashes n)
    ∙ rstrip-slashes t n

rstrip_other : (t : Text) (c : ℕ) → (c == 47) ≡ false → rstrip 47 (t ++ c ∷ []) ≡ t ++ c ∷ []
unfolding rstrip drop_last_while drop_while
rstrip_other t c other =
    rw (reverse-append t (c ∷ []), other, drop_while)
      (sym (ap reverse (reverse-append t (c ∷ []))) ∙ reverse-reverse (t ++ c ∷ []))

-- A base URL that ends in another character than a slash gets the path of either API behind it, with
-- exactly one slash between, however many slashes are given behind the base.
pub urls-slashes :
    (t : Text) (c n : ℕ)
    → (c == 47) ≡ false
    → (chat_url ((t ++ c ∷ []) ++ slashes n) ≡ (t ++ c ∷ []) ++ codes "/v1/chat/completions")
      × (completions_url ((t ++ c ∷ []) ++ slashes n) ≡ (t ++ c ∷ []) ++ codes "/v1/completions")
unfolding chat_url completions_url
urls-slashes t c n other = rw (rstrip-slashes (t ++ c ∷ []) n, rstrip_other t c other) (refl, refl)
