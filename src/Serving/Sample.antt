-- ===== src/Serving/Sample.antt =====
-- A configuration with two switches, and a parser that takes a text as the id of the switch, for the tests of the server.
use door_switch_svr.Prelude.{[], ◌∷◌, true, false, refl, Option, none, some, arith}
use door_switch_svr.Prelude.Int.{pos}
use door_switch_svr.OrderedMap.{key_ℕ, key_text, compare_text, find}
use door_switch_svr.Param.{Text, text, SwitchInfo, SvrCfg, default_svr_cfg, direct_control_switch}
use door_switch_svr.Poco.{Json, ok}
use door_switch_svr.Controller.{WriteResult}
use door_switch_svr.Engine.{OpenDoorRequest, Surroundings, read_request}
use door_switch_svr.Engine.Request.{Asks}
use door_switch_svr.Mqtt.{MosquittoMessage, on_message}
use door_switch_svr.Svr.{delivered}
use door_switch_svr.Serving.{Server, new_server, hear}
use door_switch_svr.Serving.Round.{Round, IsRound}
use door_switch_svr.Svr.Load.Loaded.{IsTable}

abbrev pub board : SwitchInfo
board = record {
  oid = text "b";
  ip = text "10.0.0.7";
  channels = 8;
  port = 6000;
  type = direct_control_switch;
}

-- A second switch of the same kind.
abbrev pub other_board : SwitchInfo
other_board = record board { oid = text "c"; ip = text "10.0.0.8" }

abbrev pub config : SvrCfg
config = record default_svr_cfg {
  map_oid_switch_info = (text "b", board) ∷ (text "c", other_board) ∷ [];
}

abbrev pub parser : Json
parser = record {
  Value = Text;
  Object = Text;
  parse = λ message. ok message;
  extract = λ value. ok value;
  get_string = λ object key. ok object;
  get_int = λ object key. ok (pos 3);
}

abbrev pub around : Surroundings
around = record { now = 9; connect_error = false; is_address = λ ip. true }

abbrev pub written : WriteResult
written = record { error = false; len = 10 }

pub config-IsTable : IsTable config.map_oid_switch_info
unfolding compare_text
config-IsTable = ground arith

-- The first message, and the server after it.
abbrev pub message : MosquittoMessage
message = record { topic = text "seeta_switch_open"; payload = some (text "b") }

-- The same for the second switch.
abbrev pub other_message : MosquittoMessage
other_message = record message { payload = some (text "c") }

abbrev pub heard : Server
heard = hear parser config (delivered around message) (new_server config)

abbrev pub request : OpenDoorRequest
request = record { switch_id = text "b"; channel = pos 3; close_after = pos 3 }

pub asked : Asks parser config (text "b") request board 3
unfolding read_request find compare_text
asked = record {
  reads = refl;
  found = refl;
  own_id = refl;
  asked = refl;
  lower = omega arith;
  upper = omega arith;
  width = omega arith;
}

-- The first message with the turns of the door's thread, and one more.
abbrev pub fresh : Server
fresh = new_server config

abbrev pub first : Round
first = record {
  env = around;
  message = message;
  turns = record { r1 = written; r2 = written; r3 = written; t1 = 11; t2 = 3011; t3 = 3012 };
}

abbrev pub second : Round
second = record {
  env = record around { now = 5000000 };
  message = message;
  turns = record {
    r1 = written;
    r2 = written;
    r3 = written;
    t1 = 5000001;
    t2 = 5003000;
    t3 = 5003001;
  };
}

pub first-IsRound : IsRound parser config fresh.proxy board 3 first
unfolding new_server on_message compare_text
first-IsRound = record {
  payload = text "b";
  let_through = refl;
  req = request;
  asks = asked;
  close = 3;
  given = refl;
  written = ((refl, omega arith), (refl, omega arith), (refl, omega arith));
  started = omega arith;
  soon = omega arith;
  fits = omega arith;
}

pub second-IsRound : IsRound parser config fresh.proxy board 3 second
unfolding new_server on_message compare_text
second-IsRound = record {
  payload = text "b";
  let_through = refl;
  req = request;
  asks = asked;
  close = 3;
  given = refl;
  written = ((refl, omega arith), (refl, omega arith), (refl, omega arith));
  started = omega arith;
  soon = omega arith;
  fits = omega arith;
}

-- The value, if there is one.
abbrev pub get {ℓ} : {A : Type ℓ} → A → Option A → A
get a none = a
get a (some b) = b
