-- ===== src/Database/Configs.antt =====
-- app/models/system_config.py: the rows of `system_config`.
use robo_control.Prelude.{String, Option, none, some, List, [], ◌∷◌, str_eq, if◌then◌else◌}

pub record SystemConfig : Type 0 where
  pub key : String
  pub value : Option String

-- `select(SystemConfig).where(SystemConfig.key == key)`
unfoldable pub find_config : String → List SystemConfig → Option SystemConfig
find_config key [] = none
find_config key (c ∷ cs) = if str_eq c.key key then some c else find_config key cs

-- `config_obj.value = value`, or a new row
unfoldable pub set_config : String → String → List SystemConfig → List SystemConfig
set_config key value [] = record { key = key; value = some value } ∷ []
set_config key value (c ∷ cs) =
    if str_eq c.key key then record c { value = some value } ∷ cs else c ∷ set_config key value cs
