-- ===== src/Chat/Prompts.antt =====
-- The prompts of a conversation: what is sent at each turn, given what was asked and answered.
use mathlib.Core.List.{append_assoc}
use ai_infra_demo.Base.{◌≡◌, refl, List, [], ◌∷◌, ◌++◌, length, arith}
use ai_infra_demo.Py.Text.{Text}
use ai_infra_demo.Chat.{Message, user, assistant}

-- Each prompt is the conversation so far and the next question.
unfoldable pub prompts : List Message → List (Text × Text) → List (List Message)
prompts history [] = []
prompts history ((asked, answered) ∷ turns) =
    (history ++ user asked ∷ [])
    ∷ prompts ((history ++ user asked ∷ []) ++ assistant answered ∷ []) turns

-- Each list is the one before with two messages added: an answer and a question.
abbrev pub IsGrowing : List (List Message) → Type 0
IsGrowing [] = Unit
IsGrowing (p ∷ []) = Unit
IsGrowing (p ∷ q ∷ ps) =
    ((answered : Text) × (asked : Text) × (q ≡ p ++ assistant answered ∷ user asked ∷ []))
    × IsGrowing (q ∷ ps)

pub prompts-IsGrowing :
    (history : List Message) (turns : List (Text × Text)) → IsGrowing (prompts history turns)
unfolding prompts
prompts-IsGrowing history [] = tt
prompts-IsGrowing history ((q, a) ∷ []) = tt
prompts-IsGrowing history ((q, a) ∷ (q', a') ∷ turns) = (
  (a, q', append_assoc (history ++ user q ∷ []) (assistant a ∷ []) (user q' ∷ [])),
  prompts-IsGrowing ((history ++ user q ∷ []) ++ assistant a ∷ []) ((q', a') ∷ turns),
)

pub length-prompts :
    (history : List Message) (turns : List (Text × Text))
    → length (prompts history turns) ≡ length turns
unfolding prompts
length-prompts history [] = refl
length-prompts history ((q, a) ∷ turns) =
    omega (arith, length-prompts ((history ++ user q ∷ []) ++ assistant a ∷ []) turns)
