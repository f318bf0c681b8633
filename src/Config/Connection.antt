-- ===== src/Config/Connection.antt =====
-- The connection settings that were written are those that are read, and that the client uses.
use robo_control.Prelude.{ℕ, suc, String, ◌≡◌, refl, ◌∙◌, false, none, some, [], ◌∷◌}
use robo_control.Text.{concat, is_empty}
use robo_control.Json.{ℤ}
use robo_control.Json.Print.{print_int, parse_int-print_int, print_int-not-empty}
use robo_control.Errors.{ok}
use robo_control.Redis
use robo_control.Redis.Keys.{sysconfig_key}
use robo_control.Redis.Laws.{get-set}
use robo_control.World.{Env, World, ◌>>=◌, ◌>>◌, modify}
use robo_control.World.Rules.{bind-ok}
use robo_control.World.Session.{commit}
use robo_control.World.Session.Laws.{commit-fine}
use robo_control.Client.Request.{full_url}
use robo_control.Database.{Db}
use robo_control.Database.Configs.{set_config}
use robo_control.Config.{
  ConnectionSettings, get, set, with_config, read_port, settings_of, get_connection_settings,
  update_system_config,
}

-- A value that Redis holds is what is read, and reading it changes nothing.
get_cached :
    (key v : String) (w : World)
    → Redis.get w.now (sysconfig_key key) w.redis ≡ some v
    → get key w ≡ (ok (some v), w)
unfolding get
get_cached key v w h = rw h refl

module _ (env : Env) where
  read_port-print_int : (z : ℤ) → read_port env (some (print_int z)) ≡ ok (some z)
  unfolding read_port
  read_port-print_int z = rw (print_int-not-empty z, parse_int-print_int z)

  -- Both settings are in Redis.
  abbrev pub Holds : String → ℤ → World → Type 0
  Holds ip port w =
      (Redis.get w.now (sysconfig_key "rcs_ip") w.redis ≡ some ip)
      × (Redis.get w.now (sysconfig_key "rcs_port") w.redis ≡ some (print_int port))

  -- The settings for a non-empty address and a port.
  abbrev pub connection : String → ℤ → ConnectionSettings
  connection ip port = record {
    rcs_ip = some ip;
    rcs_port = some port;
    rcs_base_url = concat ("http://" ∷ ip ∷ ":" ∷ print_int port ∷ []);
  }

  settings_of-connection :
      (ip : String) (port : ℤ) (w : World)
      → is_empty ip ≡ false
      → settings_of env (some ip) (some (print_int port)) w ≡ (ok (connection ip port), w)
  settings_of-connection ip port w filled =
      rw (read_port-print_int port, filled, print_int-not-empty port) refl

  pub get_connection_settings-held :
      (ip : String) (port : ℤ) (w : World)
      → is_empty ip ≡ false
      → Holds ip port w
      → get_connection_settings env w ≡ (ok (connection ip port), w)
  unfolding get_connection_settings
  get_connection_settings-held ip port w filled (held_ip, held_port) =
      bind-ok (get "rcs_ip") (λ i. get "rcs_port" >>= λ p. settings_of env i p) w w (some ip)
        (get_cached "rcs_ip" ip w held_ip)
      ∙ bind-ok (get "rcs_port") (λ p. settings_of env (some ip) p) w w (some (print_int port))
          (get_cached "rcs_port" (print_int port) w held_port)
      ∙ settings_of-connection ip port w filled

  pub url_of_held :
      (ip : String) (port : ℤ) (path : String) (w : World)
      → is_empty ip ≡ false
      → Holds ip port w
      → full_url env
          (Redis.get w.now (sysconfig_key "rcs_ip") w.redis)
          (Redis.get w.now (sysconfig_key "rcs_port") w.redis)
          path
        ≡ concat ("http://" ∷ ip ∷ ":" ∷ print_int port ∷ path ∷ [])
  unfolding full_url
  url_of_held ip port path w filled (held_ip, held_port) =
      rw (held_ip, held_port, filled, print_int-not-empty port) refl

  module _ (commits : (n : ℕ) (d : Db) → env.commit_error n d ≡ none) where
    -- The world in which a setting is committed and cached.
    abbrev pub with_setting : String → String → World → World
    with_setting key v w =
        let t = record w.tx { configs = set_config key v w.tx.configs } in
        record w {
          tx = t;
          db = t;
          commits = suc w.commits;
          redis = Redis.set (sysconfig_key key) v w.redis;
        }

    set_lem : (key v : String) (w : World) → set env key v w ≡ (ok tt, with_setting key v w)
    unfolding set
    set_lem key v w =
        let changed = with_config env key v w in
        bind-ok (commit env)
          (λ _. modify (λ u. record u { redis = Redis.set (sysconfig_key key) v u.redis })) changed
          (record changed { commits = suc w.commits; db = changed.tx }) tt
          (commit-fine env changed (commits w.commits changed.tx))

    held_after :
        (ip : String) (port : ℤ) (w : World)
        → Holds ip port (with_setting "rcs_port" (print_int port) (with_setting "rcs_ip" ip w))
    unfolding sysconfig_key
    held_after ip port w = (
      get-set w.now (sysconfig_key "rcs_port") (sysconfig_key "rcs_ip") (print_int port)
            (Redis.set (sysconfig_key "rcs_ip") ip w.redis)
          ∙ get-set w.now (sysconfig_key "rcs_ip") (sysconfig_key "rcs_ip") ip w.redis,
      get-set w.now (sysconfig_key "rcs_port") (sysconfig_key "rcs_port") (print_int port)
          (Redis.set (sysconfig_key "rcs_ip") ip w.redis),
    )

    -- If the database commits, an update with a non-empty address returns the settings that were
    -- given, with the port read back from its text; it commits and caches both; and from then on the
    -- client addresses its requests to that address and port.
    pub update_system_config_lem :
        (ip : String) (port : ℤ) (path : String) (w : World)
        → is_empty ip ≡ false
        → let after = with_setting "rcs_port" (print_int port) (with_setting "rcs_ip" ip w) in
          (update_system_config env ip port w ≡ (ok (connection ip port), after))
          × (full_url env
                (Redis.get after.now (sysconfig_key "rcs_ip") after.redis)
                (Redis.get after.now (sysconfig_key "rcs_port") after.redis)
                path
              ≡ concat ("http://" ∷ ip ∷ ":" ∷ print_int port ∷ path ∷ []))
    unfolding update_system_config
    update_system_config_lem ip port path w filled =
        let first = with_setting "rcs_ip" ip w in
        let after = with_setting "rcs_port" (print_int port) first in
        let held = held_after ip port w in
        (
          bind-ok (set env "rcs_ip" ip)
                (λ _. set env "rcs_port" (print_int port) >> get_connection_settings env) w first tt
                (set_lem "rcs_ip" ip w)
              ∙ bind-ok (set env "rcs_port" (print_int port)) (λ _. get_connection_settings env)
                  first after tt (set_lem "rcs_port" (print_int port) first)
              ∙ get_connection_settings-held ip port after filled held,
          url_of_held ip port path after filled held,
        )
