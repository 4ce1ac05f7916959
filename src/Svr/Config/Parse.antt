-- ===== src/Svr/Config/Parse.antt =====
-- What `parseConfiguration` leaves in the configuration.
use door_switch_svr.Prelude.{◌≡◌, Bool, true, false, ◌&&◌, if◌then◌else◌, arith}
use door_switch_svr.Prelude.Int.{ℤ, i16}
use door_switch_svr.Param.{text, SvrCfg}
use door_switch_svr.Poco.{Result, ok, thrown}
use door_switch_svr.Svr.Config.{Configuration, exit_ok, exit_config, parse_configuration}

-- `(short)` of what a call returns.
abbrev pub narrowed : Result ℤ → Result ℤ
narrowed (ok n) = ok (i16 n)
narrowed (thrown e) = thrown e

-- Every setting is there, or has its default.
pub record Answers (c : Configuration) (cfg cfg' : SvrCfg) : Type 0 where
  pub mongo_ip : c.get_string (text "mongodb.ip") cfg.mongo_cfg.ip ≡ ok cfg'.mongo_cfg.ip
  pub mongo_port :
      narrowed (c.get_int (text "mongodb.port") cfg.mongo_cfg.port) ≡ ok cfg'.mongo_cfg.port
  pub database :
      c.get_string (text "mongodb.database") cfg.mongo_cfg.database ≡ ok cfg'.mongo_cfg.database
  pub tb_switch :
      c.get_string (text "mongodb.doorswitch") cfg.mongo_cfg.tb_switch ≡ ok cfg'.mongo_cfg.tb_switch
  pub sync_s : c.get_int (text "mongodb.sync.interval") cfg.sync_s ≡ ok cfg'.sync_s
  pub mqtt_ip : c.get_string (text "mqtt.ip") cfg.mqtt_cfg.ip ≡ ok cfg'.mqtt_cfg.ip
  pub mqtt_port : narrowed (c.get_int (text "mqtt.port") cfg.mqtt_cfg.port) ≡ ok cfg'.mqtt_cfg.port
  pub topic : c.get_string (text "mqtt.topic") cfg.mqtt_cfg.topic ≡ ok cfg'.mqtt_cfg.topic
  pub switches : cfg'.map_oid_switch_info ≡ cfg.map_oid_switch_info

-- If the reading succeeds, every setting is what the configuration file gives, with what was there
-- before as its default, the two ports narrowed to `short`; the switches are not touched.
pub parse_configuration-Answers :
    (c : Configuration) (cfg : SvrCfg)
    → (parse_configuration c cfg).1 ≡ exit_ok
    → Answers c cfg (parse_configuration c cfg).0
unfolding parse_configuration
parse_configuration-Answers c cfg h = ground arith

abbrev pub returns : {A : Type 0} → Result A → Bool
returns (ok a) = true
returns (thrown e) = false

-- The reading succeeds exactly if none of the eight calls throws; if one does, the exit code is that of
-- a configuration error. The switches are not touched either way.
pub parse_configuration-code :
    (c : Configuration) (cfg : SvrCfg)
    → ((parse_configuration c cfg).1 ≡ (
        if returns (c.get_string (text "mongodb.ip") cfg.mongo_cfg.ip)
          && returns (c.get_int (text "mongodb.port") cfg.mongo_cfg.port)
          && returns (c.get_string (text "mongodb.database") cfg.mongo_cfg.database)
          && returns (c.get_string (text "mongodb.doorswitch") cfg.mongo_cfg.tb_switch)
          && returns (c.get_int (text "mongodb.sync.interval") cfg.sync_s)
          && returns (c.get_string (text "mqtt.ip") cfg.mqtt_cfg.ip)
          && returns (c.get_int (text "mqtt.port") cfg.mqtt_cfg.port)
          && returns (c.get_string (text "mqtt.topic") cfg.mqtt_cfg.topic)
        then exit_ok
        else exit_config))
      × ((parse_configuration c cfg).0.map_oid_switch_info ≡ cfg.map_oid_switch_info)
unfolding parse_configuration
parse_configuration-code c cfg = ground arith
