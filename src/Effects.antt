-- ===== src/Effects.antt =====
-- The outside world of one thread of a script: the clock of `time.perf_counter()`, the server
-- behind `urllib.request.urlopen`, and `json.loads`. A script is an action on a `World`.
-- Times are whole nanoseconds. The clock is monotonic, as Python's documentation states: it is
-- given by the time that passes before each reading.
use ai_infra_demo.Base.{ℕ, suc, ◌+◌, List, [], ◌∷◌, ◌++◌, Option}
use ai_infra_demo.Base.Int.{ℤ}
use ai_infra_demo.Py.Result.{Error, Result, ok, raised, url_error}
use ai_infra_demo.Py.Text.{Text, Bytes}
use ai_infra_demo.Py.Json.{Json}

-- `urllib.request.Request(url, data=json.dumps(payload).encode())`
pub record Request : Type 0 where
  pub url : Text
  pub payload : Json

-- What one step of `for raw_line in resp` yields: a line, or the exception of a broken connection.
pub data Event : Type 0 where
  line : Bytes → Event
  broken : Event

-- `urlopen` raises, or gives a response that ends after its events.
pub data Response : Type 0 where
  refused : Response
  opened : List Event → Response

-- `gap n` passes before the n-th reading of the clock, `respond n` answers the n-th request, and
-- `loads t` is `none` where `json.loads` raises.
pub record Env : Type 0 where
  pub gap : ℕ → ℕ
  pub respond : ℕ → Request → Response
  pub loads : Text → Option Json

-- The clock, the readings made, the requests sent, and the pauses made, the latest last.
pub record World : Type 0 where
  pub now : ℕ
  pub readings : ℕ
  pub requests : ℕ
  pub sent : List Request
  pub pauses : List ℤ

abbrev pub Action {ℓ} : Type ℓ → Type ℓ
Action A = World → Result A × World

module _ {ℓ} {A : Type ℓ} where
  abbrev pub pure : A → Action A
  pure a w = (ok a, w)

  abbrev pub throw : Error → Action A
  throw e w = (raised e, w)

  abbrev pub lift : Result A → Action A
  lift r w = (r, w)

abbrev pub and_then {ℓ κ} :
    {A : Type ℓ} {B : Type κ} → Result A × World → (A → Action B) → Result B × World
and_then (ok a, w) f = f a w
and_then (raised e, w) f = (raised e, w)

infixl 5 ◌>>=◌ ◌>>◌
abbrev pub ◌>>=◌ {ℓ κ} : {A : Type ℓ} {B : Type κ} → Action A → (A → Action B) → Action B
◌>>=◌ m f w = and_then (m w) f

abbrev pub ◌>>◌ {ℓ} : {B : Type ℓ} → Action (Unit {0}) → Action B → Action B
m >> k = m >>= λ _. k

abbrev pub events_of : Response → Result (List Event)
events_of refused = raised url_error
events_of (opened es) = ok es

module _ (env : Env) where
  -- `time.perf_counter()`
  unfoldable pub perf_counter : Action ℕ
  perf_counter w =
      let t = w.now + env.gap w.readings in (ok t, record w { now = t; readings = suc w.readings })

  -- `urllib.request.urlopen(req)`: the lines of the response, or an exception.
  unfoldable pub urlopen : Request → Action (List Event)
  urlopen req w = (
    events_of (env.respond w.requests req),
    record w { requests = suc w.requests; sent = w.sent ++ req ∷ [] },
  )

-- `stop_event.wait(seconds)`
unfoldable pub wait : ℤ → Action (Unit {0})
wait d w = (ok tt, record w { pauses = w.pauses ++ d ∷ [] })
