-- ===== src/World.antt =====
-- What the services run in: the settings (app/core/config.py), what the program does not implement
-- as parameters (`Env`), and the state that calls change (`World`).
--
-- A request handler works in a session: `tx` is what the session sees, `db` what is committed.
-- Its calls run one after another; a call that raises keeps what was written before it.
pub mod Session
pub mod Rules
use robo_control.Prelude.{ℕ, String, Bool, Option, none, some, List}
use robo_control.Json.{Json, ℤ}
use robo_control.Errors.{Exn, Result, ok, raise, builtin, redis_error}
use robo_control.Redis.{Store}
use robo_control.Database.{Db}
use robo_control.Database.Tasks.{TaskHistory}

-- The settings that the modelled paths read.
pub record Settings : Type 0 where
  pub rcs_base_url : String
  pub rcs_app_key : String
  pub rcs_app_secret : String
  pub rcs_api_version : String
  pub api_key : String
  pub webhook_secret : String
  pub debug : Bool

-- A request that is put on the wire.
pub record Outgoing : Type 0 where
  pub method : String
  pub url : String
  pub content : Option String
  pub params : List (String × String)
  pub headers : List (String × String)

-- What `httpx` gives back: a response with its status and text, or an exception.
pub data HttpOutcome : Type 0 where
  response : ℕ → String → HttpOutcome
  raises : Exn → HttpOutcome

-- The clock and random values that one outgoing request draws.
pub record Draw : Type 0 where
  pub timestamp : String
  pub nonce : String
  pub request_id : String
  pub trace_id : String
  pub minute_stamp : String

-- The libraries and services behind the program. A request's outcome and its random values depend
-- on all that was sent before.
pub record Env : Type 0 where
  pub settings : Settings
  pub http : Outgoing → List Outgoing → HttpOutcome
  pub draw : List Outgoing → Draw
  pub hmac_sha256 : String → String → String
  pub md5 : String → String
  -- `json.dumps` with `separators=(",", ":")`, with `sort_keys=True` besides, and by default
  pub dumps : Json → String
  pub dumps_sorted : Json → String
  pub dumps_default : Json → String
  -- `json.loads`, where `none` is a ValueError
  pub loads : String → Option Json
  -- `str(v)` of a float, a list or a dict
  pub repr : Json → String
  -- the message of the ValueError with which `urlsplit` refuses an authority, if it does
  pub netloc_error : String → Option String
  -- `int(s)` of a text that is not a plain numeral, where `none` is a ValueError
  pub int_other : String → Option ℤ
  -- `datetime.isoformat()` of a time
  pub isoformat : ℕ → String
  -- why the database refuses a row, a statement after n commits or refusals, or the n-th commit, if
  -- it does
  pub flush_error : TaskHistory → Option String
  pub statement_error : ℕ → Db → Option String
  pub commit_error : ℕ → Db → Option String
  -- the id that the database gives to a new row of the webhook log after n commits
  pub next_log_id : ℕ → ℕ
  -- why the broker refuses the n-th message, if it does
  pub broker_error : ℕ → Option String
  -- why Redis refuses, at a time, a write that would set a key to expire, if it does
  pub redis_error : ℕ → String → Option String
  -- the page with which Starlette answers an exception that no handler takes, when debugging
  pub debug_page : Exn → Json

pub record World : Type 0 where
  pub now : ℕ
  pub redis : Store
  pub db : Db
  pub tx : Db
  -- the number of commits, and of statements of the worker that were refused
  pub commits : ℕ
  -- the requests sent to RCS-2000, the last one first
  pub sent : List Outgoing
  -- the payloads that the broker took, the last one first, and the number of attempts
  pub queue : List Json
  pub deliveries : ℕ

abbrev pub App : Type 0 → Type 0
App A = World → Result A × World

module _ {A : Type 0} where
  abbrev pub pure : A → App A
  pure a w = (ok a, w)

  abbrev pub throw : Exn → App A
  throw e w = (raise e, w)

  abbrev pub lift : Result A → App A
  lift r w = (r, w)

  abbrev pub gets : (World → A) → App A
  gets f w = (ok (f w), w)

abbrev pub modify : (World → World) → App (Unit {0})
modify f w = (ok tt, f w)

-- A write into Redis, unless Redis refuses it.
abbrev pub write_unless : Option String → (World → World) → App (Unit {0})
write_unless (some reason) f w = (raise (builtin redis_error reason), w)
write_unless none f w = (ok tt, f w)

infixl 5 ◌>>=◌ ◌>>◌
abbrev pub ◌>>=◌ : {A B : Type 0} → App A → (A → App B) → App B
◌>>=◌ m f w = let (r, w') = m w in elim r [ ok a ↦ f a w' | raise e ↦ (raise e, w') ]

abbrev pub ◌>>◌ : {A B : Type 0} → App A → App B → App B
m >> k = m >>= λ _. k
