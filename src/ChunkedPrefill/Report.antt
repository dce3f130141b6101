-- ===== src/ChunkedPrefill/Report.antt =====
-- load_test_chunked_prefill.py below `if not all_results`: the table, and the percentiles of the chat
-- turns and of the injections. A median is held doubled.
pub mod Laws
pub mod Entries
use ai_infra_demo.Base.{
  ℕ, Bool, true, false, ◌&&◌, Option, none, some, List, [], ◌∷◌, length, map, leb, if◌then◌else◌,
}
use ai_infra_demo.Py.Result.{Result, ok, raised, ◌>>=◌}
use ai_infra_demo.Py.Text.{Text, text_eq, text_le}
use ai_infra_demo.Stats.{sort_by, double_median, p95}
use ai_infra_demo.Injections.{Entry, EntryType, is_chat, is_inject, key_text}

-- `(str(x["session"]), x["turn"])` compared with another.
abbrev pub entry_le : Entry → Entry → Bool
entry_le a b =
    let s = key_text a.session in
    let t = key_text b.session in if text_eq s t then leb a.turn b.turn else text_le s t

-- `[r["ttft_ms"] for r in all_results if r.get("type") == …]`
unfoldable pub ttfts_if : (EntryType → Bool) → List Entry → List ℕ
ttfts_if p [] = []
ttfts_if p (e ∷ es) = if p e.type then e.ttft_ms ∷ ttfts_if p es else ttfts_if p es

abbrev pub chat_ttfts : List Entry → List ℕ
chat_ttfts = ttfts_if is_chat

abbrev pub inject_ttfts : List Entry → List ℕ
inject_ttfts = ttfts_if is_inject

pub record Percentiles : Type 0 where
  pub requests : ℕ
  pub p50 : ℕ
  pub p95 : ℕ

unfoldable pub percentiles : List ℕ → Result Percentiles
percentiles ttfts = do
  m ← double_median ttfts
  v ← p95 ttfts
  ok (record { requests = length ttfts; p50 = m; p95 = v })

-- `if inject_ttfts:`
unfoldable pub inject_percentiles : List ℕ → Result (Option Percentiles)
unfolding percentiles
inject_percentiles [] = ok none
inject_percentiles (t ∷ ts) = percentiles (t ∷ ts) >>= λ p. ok (some p)

pub record Report : Type 0 where
  pub table : List Entry
  pub chat : Percentiles
  pub inject : Option Percentiles

-- `none` is "No results collected."
unfoldable pub report : List Entry → Result (Option Report)
unfolding percentiles inject_percentiles
report [] = ok none
report (e ∷ es) = do
  chat_p ← percentiles (chat_ttfts (e ∷ es))
  inject_p ← inject_percentiles (inject_ttfts (e ∷ es))
  ok (some (record { table = sort_by entry_le (e ∷ es); chat = chat_p; inject = inject_p }))
