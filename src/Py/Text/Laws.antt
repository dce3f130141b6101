-- ===== src/Py/Text/Laws.antt =====
-- Laws of the methods of `str` and `bytes`.
use ai_infra_demo.Base.{◌<◌, ◌≡◌, refl, true, none, some, [], ◌∷◌, ◌++◌, All, arith}
use ai_infra_demo.Py.Text.{Text, Bytes, text_eq, starts_with, decode}

pub text_eq→eq : (s t : Text) → text_eq s t ≡ true → s ≡ t
unfolding text_eq
text_eq→eq [] [] h = refl
text_eq→eq [] (b ∷ t) h = cc
text_eq→eq (a ∷ s) [] h = cc
text_eq→eq (a ∷ s) (b ∷ t) h = ground (arith, text_eq→eq s t)

pub text_eq_refl : (s : Text) → text_eq s s ≡ true
unfolding text_eq
text_eq_refl [] = refl
text_eq_refl (a ∷ s) = ground (arith, text_eq_refl s)

-- A text begins with each of its prefixes.
pub starts_with-append : (p t : Text) → starts_with (p ++ t) p ≡ true
unfolding starts_with
starts_with-append [] t = refl
starts_with-append (c ∷ p) t = ground (arith, starts_with-append p t)

-- ASCII bytes decode to themselves.
pub decode_ascii : (bs : Bytes) → All (λ b. b < 0x80) bs → decode bs ≡ some bs
unfolding decode
decode_ascii [] h = refl
decode_ascii (b ∷ bs) h = ground (arith, decode_ascii bs)

-- The euro sign, an overlong form of `/`, a surrogate and a sequence that is cut off.
decode_samples :
    (decode (0xe2 ∷ 0x82 ∷ 0xac ∷ []) ≡ some (0x20ac ∷ []))
    × (decode (0xc0 ∷ 0xaf ∷ []) ≡ none)
    × (decode (0xed ∷ 0xa0 ∷ 0x80 ∷ []) ≡ none)
    × (decode (0xe2 ∷ 0x82 ∷ []) ≡ none)
unfolding decode
decode_samples = (refl, refl, refl, refl)
