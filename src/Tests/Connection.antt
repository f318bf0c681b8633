-- ===== src/Tests/Connection.antt =====
-- The connection settings on a concrete input.
use robo_control.Prelude.{◌≡◌, refl}
use robo_control.Json.{pos}
use robo_control.Errors.{ok}
use robo_control.Redis
use robo_control.Redis.Keys.{sysconfig_key}
use robo_control.World.{World}
use robo_control.Client.Request.{full_url}
use robo_control.Config.{update_system_config}
use robo_control.Config.Connection.{connection, with_setting, update_system_config_lem}
use robo_control.Tests

abbrev updated : World
updated =
    with_setting Tests.env (λ _ _. refl) "rcs_port" "8182"
      (with_setting Tests.env (λ _ _. refl) "rcs_ip" "10.0.0.7" Tests.start)

update_system_config_lem_example :
    (update_system_config Tests.env "10.0.0.7" (pos 8182) Tests.start
      ≡ (ok (connection Tests.env "10.0.0.7" (pos 8182)), updated))
    × (full_url Tests.env
          (Redis.get 1000 (sysconfig_key "rcs_ip") updated.redis)
          (Redis.get 1000 (sysconfig_key "rcs_port") updated.redis)
          "/rcs/x"
        ≡ "http://10.0.0.7:8182/rcs/x")
unfolding robo_control.Json.Print.print_int
update_system_config_lem_example =
    update_system_config_lem Tests.env (λ _ _. refl) "10.0.0.7" (pos 8182) "/rcs/x" Tests.start refl
