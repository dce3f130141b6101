-- ===== src/Injections.antt =====
-- What the two versions of load_test_chunked_prefill.py (kv-inference/scripts/nebius-3-kv-expr and
-- kv-inference/scripts/local) share: the dicts in `all_results` and the injector thread. They
-- differ in `max_tokens` and in the prompt of an injection.
pub mod Rounds
pub mod Alone
pub mod Options
pub mod Mixed
use ai_infra_demo.Base.{ℕ, suc, ◌-◌, Bool, true, false, List, [], ◌∷◌, ◌++◌, length}
use ai_infra_demo.Py.Result.{Result, ok, raised}
use ai_infra_demo.Py.Text.{Text, codes}
use ai_infra_demo.Py.Decimal.{decimal}
use ai_infra_demo.Effects.{Env, World}
use ai_infra_demo.Chat.{Message, user, Inference, chat_inference}

-- `result["session"]`: the number of a session, or the text `INJ-` and the number of an injection.
pub data SessionKey : Type 0 where
  session : ℕ → SessionKey
  injection : ℕ → SessionKey

-- `str(x["session"])`
unfoldable pub key_text : SessionKey → Text
key_text (session n) = decimal n
key_text (injection n) = codes "INJ-" ++ decimal n

-- `result["type"]`
pub data EntryType : Type 0 where
  chat inject : EntryType

abbrev pub is_chat : EntryType → Bool
is_chat chat = true
is_chat inject = false

abbrev pub is_inject : EntryType → Bool
is_inject chat = false
is_inject inject = true

pub record Entry : Type 0 where
  pub session : SessionKey
  pub type : EntryType
  pub turn : ℕ
  pub prompt_messages : ℕ
  pub ttft_ms : ℕ
  pub tpot_ms : ℕ
  pub total_tokens : ℕ

abbrev pub chat_entry : ℕ → ℕ → Inference → List Message → Entry
chat_entry session_id i result messages = record {
  session = session session_id;
  type = chat;
  turn = suc i;
  prompt_messages = length messages - 1;
  ttft_ms = result.ttft_ms;
  tpot_ms = result.tpot_ms;
  total_tokens = result.total_tokens;
}

abbrev pub inject_entry : ℕ → Inference → Entry
inject_entry inject_id result = record {
  session = injection inject_id;
  type = inject;
  turn = 1;
  prompt_messages = 1;
  ttft_ms = result.ttft_ms;
  tpot_ms = result.tpot_ms;
  total_tokens = result.total_tokens;
}

-- What the `try` block appends: an exception is printed and leaves nothing.
abbrev pub appended : ℕ → Result Inference → List Entry → List Entry
appended inject_id (ok result) entries = entries ++ inject_entry inject_id result ∷ []
appended inject_id (raised e) entries = entries

-- The injector thread; `prompt n` is the prompt of injection n.
module _ (env : Env) (max_tokens : ℕ) (prompt : ℕ → Text) (url model : Text) where
  -- The messages of an injection.
  abbrev pub inject_messages : ℕ → List Message
  inject_messages inject_id = user (prompt inject_id) ∷ []

  unfoldable pub inject_once : ℕ → List Entry → World → List Entry × World
  inject_once inject_id entries w =
      let (result, u) = chat_inference env max_tokens url model (inject_messages inject_id) w in
      (appended inject_id result entries, u)

  -- The `while True` loop over what `stop_event.is_set()` answers after each sleep. The list ends
  -- where the run is looked at: the thread is a daemon, and may end anywhere with the process.
  unfoldable pub inject_loop : List Bool → ℕ → List Entry → World → List Entry × World
  unfolding inject_once
  inject_loop [] inject_id entries w = (entries, w)
  inject_loop (true ∷ later) inject_id entries w = (entries, w)
  inject_loop (false ∷ later) inject_id entries w =
      let (entries', u) = inject_once (suc inject_id) entries w in
      inject_loop later (suc inject_id) entries' u
