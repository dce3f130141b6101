-- ===== src/Injections/Mixed/Entries.antt =====
-- The entries of one kind in the shared list.
use mathlib.Core.List.{append-nil}
use ai_infra_demo.Base.{
  ℕ, ◌≡◌, refl, ap, ◌∙◌, Bool, List, [], ◌∷◌, ◌++◌, All, Bool-cases, inl, inr, if◌then◌else◌,
}
use ai_infra_demo.Py.Result.{Result, ok, raised}
use ai_infra_demo.Chat.{Inference}
use ai_infra_demo.Injections.{Entry, EntryType, chat, is_chat, is_inject, inject_entry, appended}

abbrev pub only : (EntryType → Bool) → List Entry → List Entry
only p [] = []
only p (e ∷ es) = if p e.type then e ∷ only p es else only p es

pub only-append :
    (p : EntryType → Bool) (xs ys : List Entry) → only p (xs ++ ys) ≡ only p xs ++ only p ys
only-append p [] ys = refl
only-append p (x ∷ xs) ys = elim (Bool-cases (p x.type)) [
  | inl this ↦ rw (this, only-append p xs ys) refl
  | inr other ↦ rw (other, only-append p xs ys) refl
]

-- Entries of chat turns.
abbrev pub AllChat : List Entry → Type 0
AllChat = All (λ e. e.type ≡ chat)

pub only_chat-AllChat : (es : List Entry) → AllChat es → only is_chat es ≡ es
only_chat-AllChat [] all = refl
only_chat-AllChat (e ∷ es) (c, all) = rw (ap is_chat c) (ap (◌∷◌ e) (only_chat-AllChat es all))

pub only_inject-AllChat : (es : List Entry) → AllChat es → only is_inject es ≡ []
only_inject-AllChat [] all = refl
only_inject-AllChat (e ∷ es) (c, all) = rw (ap is_inject c) (only_inject-AllChat es all)

-- An injection leaves the chat turns alone.
pub only_chat-appended :
    (n : ℕ) (r : Result Inference) (es : List Entry)
    → only is_chat (appended n r es) ≡ only is_chat es
only_chat-appended n (ok result) es =
    only-append is_chat es (inject_entry n result ∷ []) ∙ append-nil (only is_chat es)
only_chat-appended n (raised e) es = refl

-- It appends to the injections what it appends to a list of injections.
pub only_inject-appended :
    (n : ℕ) (r : Result Inference) (es : List Entry)
    → only is_inject (appended n r es) ≡ appended n r (only is_inject es)
only_inject-appended n (ok result) es = only-append is_inject es (inject_entry n result ∷ [])
only_inject-appended n (raised e) es = refl
