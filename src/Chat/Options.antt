-- ===== src/Chat/Options.antt =====
-- The options that the chat load tests share (load_test_multi_session.py and both
-- load_test_chunked_prefill.py), and what their `__main__` makes of them before the sessions start.
pub mod Urls
pub mod Starts
use mathlib.Core.Option
use ai_infra_demo.Base.{
  ℕ, suc, Bool, true, false, Option, none, some, List, [], ◌∷◌, ◌++◌, if◌then◌else◌,
}
use ai_infra_demo.Base.Int.{ℤ, pos, negsuc}
use ai_infra_demo.Py.Result.{Error, Result, ok, raised, value_error}
use ai_infra_demo.Py.Text.{Text, codes, rstrip}
use ai_infra_demo.Py.Ints.{read_int}
use ai_infra_demo.Py.Argparse.{Argument, store_one, store_true}
use ai_infra_demo.Chat.Session.{SessionArgs}

-- A think time is in nanoseconds.
pub record Options : Type 0 where
  pub url : Text
  pub model : Text
  pub turns : ℤ
  pub concurrency : ℤ
  pub think_time : ℤ
  pub continuous : Bool

abbrev pub default_options : Options
default_options = record {
  url = codes "http://localhost:8000";
  model = codes "mlx-community/Qwen2.5-0.5B-Instruct-4bit";
  turns = pos 5;
  concurrency = pos 2;
  think_time = pos 0;
  continuous = false;
}

-- The options stand in a namespace N, in which `set` changes them; `read_float` is `float(t)`, in
-- nanoseconds, `none` where it raises ValueError.
module _ {N : Type 0} (set : (Options → Options) → N → N) (read_float : Text → Option ℤ) where
  abbrev url_argument : Argument N
  url_argument = record {
    flag = codes "--url";
    store = store_one (λ t n. some (set (λ o. record o { url = t }) n));
  }

  abbrev model_argument : Argument N
  model_argument = record {
    flag = codes "--model";
    store = store_one (λ t n. some (set (λ o. record o { model = t }) n));
  }

  abbrev turns_argument : Argument N
  turns_argument = record {
    flag = codes "--turns";
    store = store_one (λ t n. Option.map (λ k. set (λ o. record o { turns = k }) n) (read_int t));
  }

  abbrev concurrency_argument : Argument N
  concurrency_argument = record {
    flag = codes "--concurrency";
    store =
        store_one (λ t n. Option.map (λ k. set (λ o. record o { concurrency = k }) n) (read_int t));
  }

  abbrev think_time_argument : Argument N
  think_time_argument = record {
    flag = codes "--think-time";
    store =
        store_one
          (λ t n. Option.map (λ d. set (λ o. record o { think_time = d }) n) (read_float t));
  }

  abbrev continuous_argument : Argument N
  continuous_argument = record {
    flag = codes "--continuous";
    store = store_true (set (λ o. record o { continuous = true }));
  }

  abbrev pub chat_arguments : List (Argument N)
  chat_arguments =
      url_argument ∷ model_argument ∷ turns_argument ∷ concurrency_argument ∷ think_time_argument
      ∷ continuous_argument ∷ []

-- `f"{args.url.rstrip('/')}/v1/chat/completions"`
unfoldable pub chat_url : Text → Text
unfolding rstrip
chat_url url = rstrip 47 url ++ codes "/v1/chat/completions"

-- What `new_session` submits; the counter gives each session its own `session_id`.
abbrev pub session_args : Options → SessionArgs
session_args o = record {
  session_id = 0;
  url = chat_url o.url;
  model = o.model;
  max_turns = o.turns;
  think_time = o.think_time;
}

-- `ThreadPoolExecutor(max_workers=n)`
abbrev pub pool_size : ℤ → Result ℕ
pool_size (pos (suc n)) = ok (suc n)
pool_size _ = raised value_error

-- What a script goes on to do after its `with` line: nothing, after SystemExit or an exception, or
-- to run the first c sessions, or to run c sessions at a time until Ctrl-C.
pub data Launch : Type 0 where
  system_exit : Launch
  launch_raised : Error → Launch
  once : ℕ → SessionArgs → Launch
  until_interrupt : ℕ → SessionArgs → Launch

abbrev pub with_pool : Options → Result ℕ → Launch
with_pool o (raised e) = launch_raised e
with_pool o (ok c) =
    if o.continuous then until_interrupt c (session_args o) else once c (session_args o)

unfoldable pub launch : Option Options → Launch
unfolding chat_url
launch none = system_exit
launch (some o) = with_pool o (pool_size o.concurrency)
