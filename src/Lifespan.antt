-- ===== src/Lifespan.antt =====
-- The life of the process: the client singletons of app/clients/rcs2000_client.py and
-- app/utils/redis_helper.py, and the `lifespan` of app/main.py. A client is a number, given out in
-- order; a closed one stays closed.
pub mod Singletons
use robo_control.Prelude.{
  ℕ, suc, String, Bool, true, false, ◌||◌, Option, none, some, List, [], ◌∷◌, ◌==◌, if◌then◌else◌,
}
use robo_control.Errors.{Result, ok, raise, ◌>>=◌, builtin, runtime_error}
use robo_control.World.{Env, World}
use robo_control.Security.{require_api_key}
use robo_control.Seed.{seed_robot_types}
use robo_control.Api.Endpoints.{Backend}
use robo_control.Api.{Request, serve}

-- `_singleton` or `_redis_client`, the number of clients made, and those that are closed.
pub record Singleton : Type 0 where
  pub current : Option ℕ
  pub made : ℕ
  pub closed : List ℕ

abbrev pub is_closed : ℕ → List ℕ → Bool
is_closed i [] = false
is_closed i (j ∷ js) = i == j || is_closed i js

abbrev pub make_if_none : Singleton → Singleton
make_if_none s = elim s.current [
  | some i ↦ s
  | none ↦ record s { current = some s.made; made = suc s.made }
]

-- `init_rcs_client`
unfoldable pub init_rcs_client : Singleton → Singleton
init_rcs_client s = make_if_none s

-- `RCS2000Client.aclose` of a client that made its own HTTP client.
unfoldable pub aclose : ℕ → List ℕ → List ℕ
aclose i closed = if is_closed i closed then closed else i ∷ closed

-- `shutdown_rcs_client`
unfoldable pub shutdown_rcs_client : Singleton → Singleton
shutdown_rcs_client s = elim s.current [
  | none ↦ s
  | some i ↦ record s { current = none; closed = aclose i s.closed }
]

-- `get_rcs_client`
unfoldable pub get_rcs_client : Singleton → Result ℕ
get_rcs_client s = elim s.current [
  | none ↦ raise (builtin runtime_error "RCS client not initialised; call init_rcs_client() first.")
  | some i ↦ ok i
]

-- `get_redis`
unfoldable pub get_redis : Singleton → Singleton
get_redis s = make_if_none s

-- `close_redis`
unfoldable pub close_redis : Singleton → Singleton
close_redis s = elim s.current [
  | none ↦ s
  | some i ↦ record s { current = none; closed = i ∷ s.closed }
]

pub record Process : Type 0 where
  pub rcs : Singleton
  pub redis : Singleton
  pub world : World

-- The `lifespan` after the two checks: the client, and the seed, whose exceptions are caught.
abbrev pub finish_startup : Env → Process → Process
finish_startup env p = record p {
  rcs = init_rcs_client p.rcs;
  world = (seed_robot_types env p.world).1;
}

abbrev pub after_ping : Env → Result Bool → Process → Result (Unit {0}) × Process
after_ping env (raise e) p = (raise e, p)
after_ping env (ok pong) p = (ok tt, finish_startup env p)

-- `lifespan` up to its `yield`: the query and the PING answer or raise.
unfoldable pub startup :
    Env → Result (Unit {0}) → Result Bool → Process → Result (Unit {0}) × Process
startup env (raise e) ping p = (raise e, p)
startup env (ok _) ping p = after_ping env ping (record p { redis = get_redis p.redis })

-- `lifespan` after its `yield`
unfoldable pub shutdown : Process → Process
shutdown p = record p { rcs = shutdown_rcs_client p.rcs; redis = close_redis p.redis }

abbrev pub with_client :
    Env → Backend → String → Option String → Request → Process → Result ℕ → Result ℕ × Process
with_client env backend request_id api_key r p (raise e) = (raise e, p)
with_client env backend request_id api_key r p (ok client) = (
  ok client,
  record p {
    redis = get_redis p.redis;
    world = (serve env backend request_id api_key r p.world).1;
  },
)

-- A request that needs the client: the key, then `_get_rcs`, then `get_redis`, then the route. The
-- answer is the client that it is given.
unfoldable pub serve_with_client :
    Env → Backend → String → Option String → Request → Process → Result ℕ × Process
serve_with_client env backend request_id api_key r p =
    with_client env backend request_id api_key r p
      (require_api_key env api_key >>= λ _. get_rcs_client p.rcs)

-- A step of the process, in any order that a server may take them.
pub data Step (env : Env) (backend : Backend) : Process → Process → Type 0 where
  starts :
      (select_1 : Result (Unit {0})) (ping : Result Bool) (p : Process)
      → Step env backend p (startup env select_1 ping p).1
  serves :
      (request_id : String) (api_key : Option String) (r : Request) (p : Process)
      → Step env backend p (serve_with_client env backend request_id api_key r p).1
  stops : (p : Process) → Step env backend p (shutdown p)

pub data Reachable (env : Env) (backend : Backend) (p : Process) : Process → Type 0 where
  here : Reachable env backend p p
  next :
      {q r : Process} → Reachable env backend p q → Step env backend q r → Reachable env backend p r
