-- ===== src/Config.antt =====
-- app/repositories/system_config_repository.py and the two routes for the connection settings in
-- app/api/v1/routers/system.py: settings in the database, read through Redis.
pub mod Connection
use mathlib.Core.List
use robo_control.Prelude.{String, ◌&&◌, Option, none, some, List, [], ◌∷◌, if◌then◌else◌}
use robo_control.Text.{concat, is_empty}
use robo_control.Json.{ℤ}
use robo_control.Json.Print.{print_int, parse_int}
use robo_control.Errors.{builtin, value_error, Result, ok, raise}
use robo_control.Redis
use robo_control.Redis.Keys.{sysconfig_key}
use robo_control.Database.Configs.{SystemConfig, find_config, set_config}
use robo_control.World.{Env, World, App, pure, lift, modify, ◌>>=◌, ◌>>◌}
use robo_control.World.Session.{commit}
use robo_control.Client.Request.{is_filled, text_of}

pub record ConnectionSettings : Type 0 where
  pub rcs_ip : Option String
  pub rcs_port : Option ℤ
  pub rcs_base_url : String

-- `config_obj.value`, where there is a row
abbrev pub value_of : Option SystemConfig → Option String
value_of none = none
value_of (some c) = c.value

-- A value that the database has, if it has one, is written to Redis.
abbrev pub fill : String → Option String → App (Option String)
fill key none w = (ok none, w)
fill key (some v) w = (ok (some v), record w { redis = Redis.set (sysconfig_key key) v w.redis })

abbrev pub cached_or_fill : String → Option String → App (Option String)
cached_or_fill key (some v) w = (ok (some v), w)
cached_or_fill key none w = fill key (value_of (find_config key w.tx.configs)) w

-- `SystemConfigRepository.get`
unfoldable pub get : String → App (Option String)
get key w = cached_or_fill key (Redis.get w.now (sysconfig_key key) w.redis) w

-- `int(port) if port else None`
unfoldable pub read_port : Env → Option String → Result (Option ℤ)
unfolding parse_int
read_port env none = ok none
read_port env (some port) = if is_empty port then ok none else elim (parse_int port) [
  | some z ↦ ok (some z)
  | none ↦ elim (env.int_other port) [
    | some z ↦ ok (some z)
    | none ↦ raise (
        builtin value_error
          (concat ("invalid literal for int() with base 10: '" ∷ port ∷ "'" ∷ [])))
  ]
]

module _ (env : Env) where
  -- The assignment or the new row, in the session.
  abbrev pub with_config : String → String → World → World
  with_config key value w = record w {
    tx = record w.tx { configs = set_config key value w.tx.configs };
  }

  -- `SystemConfigRepository.set`
  unfoldable pub set : String → String → App (Unit {0})
  set key value = do
    modify (with_config key value)
    commit env
    modify (λ w. record w { redis = Redis.set (sysconfig_key key) value w.redis })

  abbrev pub base_url : Option String → Option String → String
  base_url ip port =
      if is_filled ip && is_filled port
      then concat ("http://" ∷ text_of ip ∷ ":" ∷ text_of port ∷ [])
      else env.settings.rcs_base_url

  abbrev pub settings_of : Option String → Option String → App ConnectionSettings
  settings_of ip port = do
    number ← lift (read_port env port)
    pure (record { rcs_ip = ip; rcs_port = number; rcs_base_url = base_url ip port })

  -- `get_connection_settings`
  unfoldable pub get_connection_settings : App ConnectionSettings
  get_connection_settings = do ip ← get "rcs_ip"; port ← get "rcs_port"; settings_of ip port

  -- `update_system_config`
  unfoldable pub update_system_config : String → ℤ → App ConnectionSettings
  update_system_config rcs_ip rcs_port = do
    set "rcs_ip" rcs_ip
    set "rcs_port" (print_int rcs_port)
    get_connection_settings
