-- ===== src/Param.antt =====
-- src/Param.h: the constants, the configuration records and the error codes. A `std::string` is the
-- list of its bytes; the map of switches stands in the module that reads it.
use Prim.Native.Char.{code}
use Prim.Native.String.{String}
use door_switch_svr.Prelude.{ℕ, List, [], ◌∷◌, Bool, true, false}
use door_switch_svr.Prelude.Int.{ℤ, pos}
use door_switch_svr.OrderedMap.{Map}

abbrev pub Text : Type 0
Text = List ℕ

-- The bytes of an ASCII literal.
abbrev pub text : String → Text
text String.[] = []
text (String.◌∷◌ c s) = code c ∷ text s

abbrev pub s2ms : ℕ
s2ms = 1000

abbrev pub micro2ms : ℕ
micro2ms = 1000

abbrev pub reconn_start_interval : ℕ
reconn_start_interval = 256

abbrev pub reconn_start_period_interval : ℕ
reconn_start_period_interval = 2

abbrev pub reconn_max_period_interval : ℕ
reconn_max_period_interval = 256

-- The last constructor is a value of the enumeration that has no enumerator: `SwitchInfo.type` is
-- cast from a number of the database.
pub data SwitchType : Type 0 where
  direct_control_switch : SwitchType
  indirect_control_switch : SwitchType
  unnamed_switch : ℤ → SwitchType

pub record MongoCfg : Type 0 where
  pub ip : Text
  pub port : ℤ
  pub database : Text
  pub tb_switch : Text

pub record MqttCfg : Type 0 where
  pub ip : Text
  pub port : ℤ
  pub topic : Text

pub record SwitchInfo : Type 0 where
  pub oid : Text
  pub ip : Text
  pub channels : ℕ
  pub port : ℕ
  pub type : SwitchType

pub record SvrCfg : Type 0 where
  pub mongo_cfg : MongoCfg
  pub mqtt_cfg : MqttCfg
  pub map_oid_switch_info : Map Text SwitchInfo
  pub sync_s : ℤ

pub data ErrCode : Type 0 where
  err_ok err_parse_conf err_mongo_load err_mosq_conn : ErrCode
  err_channel_not_initialized err_switch_not_conn : ErrCode

-- `res == ERR_OK`.
abbrev pub is_ok : ErrCode → Bool
is_ok err_ok = true
is_ok _ = false

-- The defaults of the member initialisers. `(short) 27017` fits.
abbrev pub default_mongo_cfg : MongoCfg
default_mongo_cfg = record {
  ip = text "127.0.0.1";
  port = pos 27017;
  database = text "system_db";
  tb_switch = text "t_switch";
}

abbrev pub default_mqtt_cfg : MqttCfg
default_mqtt_cfg = record {
  ip = text "127.0.0.1";
  port = pos 1883;
  topic = text "seeta_switch_open";
}

abbrev pub default_svr_cfg : SvrCfg
default_svr_cfg = record {
  mongo_cfg = default_mongo_cfg;
  mqtt_cfg = default_mqtt_cfg;
  map_oid_switch_info = [];
  sync_s = pos 3600;
}
