-- ===== src/Redis/Keys.antt =====
-- The key builders of app/utils/redis_helper.py and the key formats of app/core/constants.py.
use robo_control.Prelude.{ℕ, String, [], ◌∷◌}
use robo_control.Text.{concat}

abbrev pub idempotency_key_ttl_seconds : ℕ
idempotency_key_ttl_seconds = 86400

abbrev pub robot_state_ttl_seconds : ℕ
robot_state_ttl_seconds = 300

abbrev pub webhook_dedupe_ttl_seconds : ℕ
webhook_dedupe_ttl_seconds = 3600

unfoldable pub robot_state_key : String → String
robot_state_key amr_code = concat ("robot:" ∷ amr_code ∷ ":state" ∷ [])

unfoldable pub idempotency_key : String → String
idempotency_key key = concat ("idempotency:" ∷ key ∷ [])

unfoldable pub webhook_dedupe_key : String → String → String
webhook_dedupe_key robot_task_code method =
    concat ("webhook:dedupe:" ∷ robot_task_code ∷ ":" ∷ method ∷ [])

-- `f"sysconfig:{key}"` of app/repositories/system_config_repository.py
unfoldable pub sysconfig_key : String → String
sysconfig_key key = concat ("sysconfig:" ∷ key ∷ [])
