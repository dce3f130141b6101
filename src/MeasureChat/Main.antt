-- ===== src/MeasureChat/Main.antt =====
-- `__main__` of measure_chat_session.py: its command line, the session, and the table of its turns.
use mathlib.Core.Option
use ai_infra_demo.Base.{
  ℕ, suc, ◌+◌, ◌≡◌, refl, ap, ◌∙◌, Option, some, List, [], ◌∷◌, ◌++◌, map, length,
}
use ai_infra_demo.Base.Int.{ℤ, pos}
use ai_infra_demo.Py.Result.{Result, ok, raised, map_ok}
use ai_infra_demo.Py.Text.{Text, codes}
use ai_infra_demo.Py.Ints.{read_int}
use ai_infra_demo.Py.Slices.{slice_to}
use ai_infra_demo.Py.Argparse.{Argument, store_one, parse_args, help}
use ai_infra_demo.Effects.{Env, World}
use ai_infra_demo.Chat.{system_message, chat_request}
use ai_infra_demo.Chat.Prompts.{prompts}
use ai_infra_demo.Chat.Options.{chat_url}
use ai_infra_demo.Chat.Session.Asks.{asked, Asks}
use ai_infra_demo.MeasureChat.{measured_turns, Turn, run_chat_session}
use ai_infra_demo.MeasureChat.Transcript.{IsTranscript, Transcribes, run_chat_session-Transcribes}

pub record ChatOptions : Type 0 where
  pub url : Text
  pub model : Text
  pub turns : ℤ

abbrev pub default_chat : ChatOptions
default_chat = record {
  url = codes "http://localhost:8000";
  model = codes "mlx-community/Qwen2.5-0.5B-Instruct-4bit";
  turns = pos 5;
}

abbrev pub measure_chat_arguments : List (Argument ChatOptions)
measure_chat_arguments =
    help
    ++ record { flag = codes "--url"; store = store_one (λ t n. some (record n { url = t })) }
      ∷ record { flag = codes "--model"; store = store_one (λ t n. some (record n { model = t })) }
      ∷ record {
        flag = codes "--turns";
        store = store_one (λ t n. Option.map (λ k. record n { turns = k }) (read_int t));
      }
      ∷ []

-- A line of the table below the turns.
pub record Line : Type 0 where
  pub turn : ℕ
  pub ttft_ms : ℕ
  pub tpot_ms : ℕ
  pub total_tokens : ℕ
  pub prompt_messages : ℕ

abbrev pub table_line : Turn → Line
table_line r = record {
  turn = r.turn;
  ttft_ms = r.ttft_ms;
  tpot_ms = r.tpot_ms;
  total_tokens = r.total_tokens;
  prompt_messages = r.prompt_messages;
}

-- The table is printed after a session that did not raise; `none` is SystemExit.
unfoldable pub measure_chat_main : Env → List Text → World → Option (Result (List Line) × World)
unfolding run_chat_session chat_url parse_args
measure_chat_main env argv w =
    Option.map
      (λ (o : ChatOptions).
        let (r, u) = run_chat_session env (chat_url o.url) o.model o.turns w in
        (map_ok (map table_line) r, u))
      (parse_args measure_chat_arguments default_chat argv)

-- Lines from turn i + 1 on, of a conversation with m messages before it.
abbrev pub IsTable : ℕ → ℕ → List Line → Type 0
IsTable i m [] = Unit
IsTable i m (l ∷ ls) = (l.turn ≡ suc i) × (l.prompt_messages ≡ m + 1) × IsTable (suc i) (m + 2) ls

IsTranscript-IsTable :
    (i m : ℕ) (ts : List (Text × Text)) (rows : List Turn)
    → IsTranscript i m ts rows
    → IsTable i m (map table_line rows) × (length (map table_line rows) ≡ length (asked ts))
IsTranscript-IsTable i m [] [] h = (tt, refl)
IsTranscript-IsTable i m [] (r ∷ rows) h = absurd h
IsTranscript-IsTable i m (t ∷ ts) [] h = absurd h
IsTranscript-IsTable i m (t ∷ ts) (r ∷ rows) (turn, count, _, _, rest) =
    let (lines, len) = IsTranscript-IsTable (suc i) (m + 2) ts rows rest in
    ((turn, count, lines), ap suc len)

-- The outcome of a script with n questions that were asked at the URL.
abbrev pub Tabulates : ChatOptions → List Text → World → Result (List Line) × World → Type 0
Tabulates o questions w (ok lines, u) =
    IsTable 0 1 lines
    × (length lines ≡ length questions)
    × (done : List (Text × Text)) × (asked done ≡ questions)
    × (u.sent
        ≡ w.sent
          ++ map (chat_request 200 (chat_url o.url) o.model) (prompts (system_message ∷ []) done))
Tabulates o questions w (raised e, u) =
    Asks 200 (chat_url o.url) o.model questions (system_message ∷ []) w u

Transcribes-Tabulates :
    (o : ChatOptions) (questions : List Text) (w : World) (out : Result (List Turn) × World)
    → Transcribes (chat_url o.url) o.model 0 questions (system_message ∷ []) [] w out
    → Tabulates o questions w (map_ok (map table_line) out.0, out.1)
Transcribes-Tabulates o questions w (ok rows, u) (done, new, all_asked, e, transcript, sent) =
    let (lines, len) = IsTranscript-IsTable 0 1 done new transcript in
    rw e (lines, len ∙ ap length all_asked, done, all_asked, sent)
Transcribes-Tabulates o questions w (raised e, u) asks = asks

-- Of every command line that measure_chat_session.py accepts: a session that does not raise prints a
-- table with one line for each question of the slice, line k with k as its turn and 2 * k messages, after
-- as many requests to the chat path of the URL, each with the whole conversation before its question. One
-- that raises prints no table, and has asked the first questions in the same way.
pub measure_chat_main-Tabulates :
    (env : Env) (argv : List Text) (w : World) (o : ChatOptions)
    → parse_args measure_chat_arguments default_chat argv ≡ some o
    → (out : Result (List Line) × World) × (measure_chat_main env argv w ≡ some out)
      × Tabulates o (slice_to o.turns measured_turns) w out
unfolding measure_chat_main
measure_chat_main-Tabulates env argv w o e = (
  _,
  ap (Option.map _) e,
  Transcribes-Tabulates o (slice_to o.turns measured_turns) w
      (run_chat_session env (chat_url o.url) o.model o.turns w)
      (run_chat_session-Transcribes env (chat_url o.url) o.model o.turns w),
)
