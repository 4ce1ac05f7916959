-- ===== src/Svr/Config.antt =====
-- src/DoorSwitchSvr.cpp, parseConfiguration: eight settings, read one after the other into the
-- configuration. An exception ends the reading and leaves what was read before.
pub mod Parse
use door_switch_svr.Prelude.{Bool, true, false}
use door_switch_svr.Prelude.Int.{ℤ, i16}
use door_switch_svr.Param.{Text, text, SvrCfg, MongoCfg, MqttCfg}
use door_switch_svr.Poco.{Result, ok, thrown}

-- `config().getString(key, default)` and `config().getInt(key, default)`.
pub record Configuration : Type 0 where
  pub get_string : Text → Text → Result Text
  pub get_int : Text → ℤ → Result ℤ

pub data ExitCode : Type 0 where
  exit_ok exit_config : ExitCode

abbrev pub is_exit_ok : ExitCode → Bool
is_exit_ok exit_ok = true
is_exit_ok exit_config = false

-- A statement of the `try` block changes the configuration and may throw.
abbrev M : Type 0 → Type 0
M A = SvrCfg → SvrCfg × Result A

infixl 5 ◌>>=◌ ◌>>◌
abbrev ◌>>=◌ : {A B : Type 0} → M A → (A → M B) → M B
◌>>=◌ m f cfg = let (cfg', r) = m cfg in elim r [ ok a ↦ f a cfg' | thrown e ↦ (cfg', thrown e) ]

abbrev ◌>>◌ : {B : Type 0} → M (Unit {0}) → M B → M B
m >> k = m >>= λ _. k

-- A call with what the configuration holds.
abbrev call : {A : Type 0} → (SvrCfg → Result A) → M A
call f cfg = (cfg, f cfg)

abbrev set_mongo : (MongoCfg → MongoCfg) → M (Unit {0})
set_mongo f cfg = (record cfg { mongo_cfg = f cfg.mongo_cfg }, ok tt)

abbrev set_mqtt : (MqttCfg → MqttCfg) → M (Unit {0})
set_mqtt f cfg = (record cfg { mqtt_cfg = f cfg.mqtt_cfg }, ok tt)

abbrev set_sync : ℤ → M (Unit {0})
set_sync n cfg = (record cfg { sync_s = n }, ok tt)

settings : Configuration → M (Unit {0})
settings c = do
  mongo_ip ← call (λ cfg. c.get_string (text "mongodb.ip") cfg.mongo_cfg.ip)
  set_mongo (λ m. record m { ip = mongo_ip })
  mongo_port ← call (λ cfg. c.get_int (text "mongodb.port") cfg.mongo_cfg.port)
  set_mongo (λ m. record m { port = i16 mongo_port })
  database ← call (λ cfg. c.get_string (text "mongodb.database") cfg.mongo_cfg.database)
  set_mongo (λ m. record m { database = database })
  tb_switch ← call (λ cfg. c.get_string (text "mongodb.doorswitch") cfg.mongo_cfg.tb_switch)
  set_mongo (λ m. record m { tb_switch = tb_switch })
  sync_s ← call (λ cfg. c.get_int (text "mongodb.sync.interval") cfg.sync_s)
  set_sync sync_s
  mqtt_ip ← call (λ cfg. c.get_string (text "mqtt.ip") cfg.mqtt_cfg.ip)
  set_mqtt (λ m. record m { ip = mqtt_ip })
  mqtt_port ← call (λ cfg. c.get_int (text "mqtt.port") cfg.mqtt_cfg.port)
  set_mqtt (λ m. record m { port = i16 mqtt_port })
  topic ← call (λ cfg. c.get_string (text "mqtt.topic") cfg.mqtt_cfg.topic)
  set_mqtt (λ m. record m { topic = topic })

code_of : SvrCfg × Result (Unit {0}) → SvrCfg × ExitCode
code_of (cfg, ok a) = (cfg, exit_ok)
code_of (cfg, thrown e) = (cfg, exit_config)

unfoldable pub parse_configuration : Configuration → SvrCfg → SvrCfg × ExitCode
unfolding settings code_of
parse_configuration c cfg = code_of (settings c cfg)
