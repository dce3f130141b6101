-- ===== src/ChunkedPrefill/Report/Entries.antt =====
-- What load_test_chunked_prefill.py prints of a list, in terms of its chat turns and its injections.
use mathlib.Core.Path.{subst}
use ai_infra_demo.Base.{
  Bool-cases, ◌≡◌, ◌≢◌, refl, sym, ap, ◌∙◌, ◌⊎◌, inl, inr, Bool, Option, none, some, List, [], ◌∷◌,
  if◌then◌else◌,
}
use ai_infra_demo.Py.Result.{Result, ok, raised, statistics_error}
use ai_infra_demo.Injections.{Entry, EntryType, chat, inject, is_chat, is_inject}
use ai_infra_demo.Injections.Mixed.Entries.{only}
use ai_infra_demo.ChunkedPrefill.Report.{Report, report, ttfts_if, chat_ttfts, inject_ttfts}
use ai_infra_demo.ChunkedPrefill.Report.Laws.{
  Describes, DescribesAny, chat_report_total, report_raises,
}

-- The figures of one kind are those of its entries.
pub ttfts_if-only :
    (p : EntryType → Bool) (es : List Entry) → ttfts_if p es ≡ ttfts_if p (only p es)
unfolding ttfts_if
ttfts_if-only p [] = refl
ttfts_if-only p (e ∷ es) = elim (Bool-cases (p e.type)) [
  | inl this ↦ rw (this, ttfts_if) (rw this (ap (◌∷◌ e.ttft_ms) (ttfts_if-only p es)))
  | inr other ↦ rw (other) (ttfts_if-only p es)
]

pub only-ne-nil : (p : EntryType → Bool) (es : List Entry) → only p es ≢ [] → ttfts_if p es ≢ []
unfolding ttfts_if
only-ne-nil p [] = λ some_one none. some_one refl
only-ne-nil p (e ∷ es) = elim (Bool-cases (p e.type)) [
  | inl this ↦ rw (this, ttfts_if) (λ some_one none. cc)
  | inr other ↦ rw (other, ttfts_if) (only-ne-nil p es)
]

-- What is printed of results with these chat turns and these injections: "No results collected.", or a
-- report that describes both; StatisticsError where there are injections alone.
abbrev pub PrintsEntries : List Entry → List Entry → Result (Option Report) → Type 0
PrintsEntries chats injections out =
    ((chats ≡ []) × (injections ≡ []) × (out ≡ ok none))
    ⊎ ((chats ≡ []) × (injections ≢ []) × (out ≡ raised statistics_error))
    ⊎ ((r : Report) × (out ≡ ok (some r))
        × (chats ≢ [])
        × Describes r.chat (chat_ttfts chats)
        × DescribesAny r.inject (inject_ttfts injections))

some_inject :
    (x : Entry) (t : EntryType) (chats injections : List Entry)
    → (if is_chat t then x ∷ chats else chats) ≡ []
    → (if is_inject t then x ∷ injections else injections) ≢ []
some_inject x chat chats injections no_chat = cc
some_inject x inject chats injections no_chat = λ no_injection. cc

-- The chat turns and the injections of a list that is not empty.
no_chat-PrintsEntries :
    (all : List Entry)
    → all ≢ []
    → only is_chat all ≡ []
    → only is_inject all ≢ []
    → PrintsEntries [] (only is_inject all) (report all)
unfolding ttfts_if
no_chat-PrintsEntries all some_one no_chat injected = inr (
    inl (
      refl,
      injected,
      report_raises all some_one (ttfts_if-only is_chat all ∙ ap chat_ttfts no_chat),
    ))

some_chat-PrintsEntries :
    (all chats : List Entry)
    → only is_chat all ≡ chats
    → chats ≢ []
    → PrintsEntries chats (only is_inject all) (report all)
some_chat-PrintsEntries all chats e some_one =
    let (r, printed, _, d, i) =
      chat_report_total all (only-ne-nil is_chat all (λ no_chat. some_one (sym e ∙ no_chat))) in
    inr (
      inr (
        r,
        printed,
        some_one,
        subst (Describes r.chat) (ttfts_if-only is_chat all ∙ ap chat_ttfts e) d,
        subst (DescribesAny r.inject) (ttfts_if-only is_inject all) i,
      ))

pub report-PrintsEntries :
    (all chats : List Entry)
    → only is_chat all ≡ chats
    → PrintsEntries chats (only is_inject all) (report all)
unfolding report
report-PrintsEntries [] [] e = inl (refl, refl, refl)
report-PrintsEntries [] (c ∷ cs) e = cc
report-PrintsEntries (x ∷ xs) [] e =
    no_chat-PrintsEntries (x ∷ xs) (λ q. cc) e (some_inject x x.type _ _ e)
report-PrintsEntries (x ∷ xs) (c ∷ cs) e = some_chat-PrintsEntries (x ∷ xs) (c ∷ cs) e (λ q. cc)
