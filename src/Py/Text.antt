-- ===== src/Py/Text.antt =====
-- `str` as a list of code points and `bytes` as a list of numbers below 256, with the methods that
-- the scripts call: `decode("utf-8")`, `strip`, `startswith`, `rstrip(c)` and `==`.
pub mod Laws
use Prim.Native.Char.{code}
use Prim.Native.String.{String}
use mathlib.Core.Option
use mathlib.Core.List.{reverse}
use ai_infra_demo.Base.{
  ℕ, zero, suc, ◌+◌, ◌-◌, ◌*◌, Bool, true, false, not, ◌&&◌, ◌||◌, Option, none, some, List, [],
  ◌∷◌, ◌++◌, ltb, leb, ◌==◌, if◌then◌else◌,
}

abbrev pub Text : Type 0
Text = List ℕ

abbrev pub Bytes : Type 0
Bytes = List ℕ

-- A literal of the source.
abbrev pub codes : String → Text
codes String.[] = []
codes (String.◌∷◌ c s) = code c ∷ codes s

unfoldable pub text_eq : Text → Text → Bool
text_eq [] [] = true
text_eq (a ∷ s) (b ∷ t) = a == b && text_eq s t
text_eq _ _ = false

-- `s <= t`, by the first code point that differs
unfoldable pub text_le : Text → Text → Bool
text_le [] t = true
text_le (a ∷ s) [] = false
text_le (a ∷ s) (b ∷ t) = if a == b then text_le s t else ltb a b

-- `t.startswith(p)`
unfoldable pub starts_with : Text → Text → Bool
starts_with t [] = true
starts_with [] (c ∷ p) = false
starts_with (a ∷ t) (c ∷ p) = a == c && starts_with t p

-- The characters that `str.strip()` removes.
abbrev pub is_space : ℕ → Bool
is_space c =
    (leb 9 c && leb c 13)
    || (leb 28 c && leb c 32)
    || c == 0x85
    || c == 0xa0
    || c == 0x1680
    || (leb 0x2000 c && leb c 0x200a)
    || c == 0x2028
    || c == 0x2029
    || c == 0x202f
    || c == 0x205f
    || c == 0x3000

unfoldable pub drop_while : (ℕ → Bool) → Text → Text
drop_while p [] = []
drop_while p (c ∷ t) = if p c then drop_while p t else c ∷ t

unfoldable pub drop_last_while : (ℕ → Bool) → Text → Text
unfolding drop_while
drop_last_while p t = reverse (drop_while p (reverse t))

-- `t.strip()`
unfoldable pub strip : Text → Text
unfolding drop_while drop_last_while
strip t = drop_last_while is_space (drop_while is_space t)

-- `t.rstrip(c)` for one character
unfoldable pub rstrip : ℕ → Text → Text
unfolding drop_last_while
rstrip c t = drop_last_while (λ d. d == c) t

-- A UTF-8 sequence that is not finished: the bytes it still needs, the bits read, and the least
-- code point that its length is for.
pub record Pending : Type 0 where
  pub need : ℕ
  pub bits : ℕ
  pub least : ℕ

abbrev pub idle : Pending
idle = record { need = 0; bits = 0; least = 0 }

abbrev is_scalar : ℕ → Bool
is_scalar c = leb c 0x10ffff && not (leb 0xd800 c && leb c 0xdfff)

abbrev start_byte : ℕ → Option (Pending × Text)
start_byte b =
    if ltb b 0x80
    then some (idle, b ∷ [])
    else if leb 0xc2 b && leb b 0xdf
    then some (record { need = 1; bits = b - 0xc0; least = 0x80 }, [])
    else if leb 0xe0 b && leb b 0xef
    then some (record { need = 2; bits = b - 0xe0; least = 0x800 }, [])
    else if leb 0xf0 b && leb b 0xf4
    then some (record { need = 3; bits = b - 0xf0; least = 0x10000 }, [])
    else none

abbrev next_byte : Pending → ℕ → Option (Pending × Text)
next_byte p b =
    let c = p.bits * 64 + (b - 0x80) in
    if not (leb 0x80 b && ltb b 0xc0)
    then none
    else if not (p.need == 1)
    then some (record p { need = p.need - 1; bits = c }, [])
    else if leb p.least c && is_scalar c
    then some (idle, c ∷ [])
    else none

decode_step : Pending → ℕ → Option (Pending × Text)
decode_step p b = if p.need == 0 then start_byte b else next_byte p b

pub decode_from : Pending → Bytes → Option Text
unfolding decode_step
decode_from p [] = if p.need == 0 then some [] else none
decode_from p (b ∷ bs) = elim (decode_step p b) [
  | none ↦ none
  | some (q, out) ↦ Option.map (λ t. out ++ t) (decode_from q bs)
]

-- `b.decode("utf-8")`; `none` is a UnicodeDecodeError.
unfoldable pub decode : Bytes → Option Text
unfolding decode_from
decode bs = decode_from idle bs
