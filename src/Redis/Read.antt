-- ===== src/Redis/Read.antt =====
-- `get_json` of app/utils/redis_helper.py, which nothing in the program calls.
use robo_control.Prelude.{
  ℕ, ◌+◌, String, ◌≡◌, Option, none, some, arith, ltb, eq_refl, if◌then◌else◌,
}
use robo_control.Json.{Json, null, str}
use robo_control.World.{Env, World}
use robo_control.Redis
use robo_control.Redis.Laws.{get-setex}

module _ (env : Env) where
  -- A value that is no JSON is given as the text that it is; `None` is null.
  abbrev read_value : Option String → Json
  read_value none = null
  read_value (some raw) = elim (env.loads raw) [ some v ↦ v | none ↦ str raw ]

  -- `get_json`
  unfoldable get_json : String → World → Json
  get_json key w = read_value (Redis.get w.now key w.redis)

  -- A value that was written with a time to live is read back, as JSON or as its text, until that
  -- time is over; from then on it is None.
  get_json-setex :
      (key text : String) (ttl : ℕ) (w v : World)
      → v.redis ≡ Redis.setex w.now key ttl text w.redis
      → get_json key v ≡ (if ltb v.now (w.now + ttl) then read_value (some text) else null)
  unfolding get_json
  get_json-setex key text ttl w v written =
      rw (written, get-setex w.now v.now key key ttl text w.redis, eq_refl key) (ground arith)
