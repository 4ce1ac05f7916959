-- ===== src/Engine/Tests.antt =====
-- The theorems on the engine at concrete values, with a JSON parser that always gives one request.
use Prim.Native.Nat.{Ordering}
use door_switch_svr.Prelude.{
  ◌≡◌, refl, sym, ◌≢◌, ◌⊎◌, [], ◌∷◌, true, false, some, arith, if◌then◌else◌,
}
use door_switch_svr.Prelude.Int.{pos, ◌≤ℤ◌, i16}
use door_switch_svr.OrderedMap.{cmp, key_text, compare_text, find, last}
use door_switch_svr.Param.{
  Text, text, SwitchInfo, SvrCfg, direct_control_switch, default_svr_cfg, err_switch_not_conn,
}
use door_switch_svr.Poco.{Json, ok}
use door_switch_svr.Engine.Created.{IsOpening, IsRetrying}
use door_switch_svr.Handler.Doors.{task_of}
use door_switch_svr.Handler.{Handler, new_handler, connect, open_door}
use door_switch_svr.Handler.Kept.{new_handler-IsFor}
use door_switch_svr.Svr.Load.Loaded.{IsTable}
use door_switch_svr.Engine.{
  OpenDoorRequest, Engine, Surroundings, opened, not_connected, failed, read_request,
  on_recv_mqtt_message,
}
use door_switch_svr.Engine.Request.{Asks, change_needs_request}
use door_switch_svr.OrderedMap.Laws.{lt-ne}
use door_switch_svr.Engine.Known.{known_switch}
use door_switch_svr.Engine.Dispatch.{
  first_lower_switch, first_greatest_switch, first_unreachable_switch,
}
use door_switch_svr.Engine.Invariant.{IsWell}

abbrev request : OpenDoorRequest
request = record { switch_id = text "b"; channel = pos 3; close_after = pos 5000 }

abbrev parser : Json
parser = record {
  Value = Unit {0};
  Object = OpenDoorRequest;
  parse = λ message. ok tt;
  extract = λ value. ok request;
  get_string = λ object key. ok object.switch_id;
  get_int = λ object key. elim (cmp key (text "channel")) [
    | Ordering.eq ↦ ok object.channel
    | _ ↦ ok object.close_after
  ];
}

abbrev board : Text → SwitchInfo
board oid = record {
  oid = oid;
  ip = text "10.0.0.7";
  channels = 8;
  port = 6000;
  type = direct_control_switch;
}

abbrev config : SvrCfg
config = record default_svr_cfg {
  map_oid_switch_info =
      (text "a", board (text "a"))
      ∷ (text "b", board (text "b"))
      ∷ (text "c", board (text "c"))
      ∷ [];
}

abbrev reachable : Surroundings
reachable = record { now = 9; connect_error = false; is_address = λ ip. true }

abbrev unreachable : Surroundings
unreachable = record reachable { connect_error = true }

asked : Asks parser config [] request (board (text "b")) 3
unfolding read_request find compare_text
asked = record {
  reads = refl;
  found = refl;
  own_id = refl;
  asked = refl;
  lower = omega arith;
  upper = omega arith;
  width = omega arith;
}

-- The engine with a handler for one switch.
abbrev serving : Text → Engine
serving oid = record { handlers = (oid, new_handler (board oid)) ∷ [] }

b_ne_c : text "b" ≢ text "c"
unfolding compare_text
b_ne_c = lt-ne (text "b") (text "c") refl

b_ne_a : text "b" ≢ text "a"
unfolding compare_text
b_ne_a = λ e. lt-ne (text "a") (text "b") refl (sym e)

change_needs_request_example :
    let e = serving (text "a") in
    ((on_recv_mqtt_message parser config reachable [] e).0 ≡ e)
    ⊎ ((req : OpenDoorRequest) × (info : SwitchInfo) × (read_request parser [] ≡ ok req)
        × (find req.switch_id config.map_oid_switch_info ≡ some info)
        × (pos 1 ≤ℤ req.channel)
        × (req.channel ≤ℤ pos info.channels))
change_needs_request_example = change_needs_request parser config reachable [] (serving (text "a"))

known_switch_example :
    let h = new_handler (board (text "b")) in
    let (e, reply) = on_recv_mqtt_message parser config reachable [] (serving (text "b")) in
    (reply ≡ (if h.connected then opened else failed err_switch_not_conn))
    × (find (text "b") e.handlers ≡ some (open_door (i16 (pos 3)) (pos 5000) 9 h).0)
    × (find (text "c") e.handlers ≡ find (text "c") (serving (text "b")).handlers)
unfolding find compare_text
known_switch_example =
    known_switch parser config reachable [] request (board (text "b")) 3 asked (serving (text "b"))
      (new_handler (board (text "b"))) (text "c") refl b_ne_c

first_lower_switch_example :
    let w = new_handler (board (text "c")) in
    let (e, reply) = on_recv_mqtt_message parser config reachable [] (serving (text "c")) in
    (reply ≡ opened)
    × (find (text "b") e.handlers ≡ some (new_handler (board (text "b"))))
    × (find (text "c") e.handlers
        ≡ some (open_door (i16 (pos 3)) (pos 5000) 9 (connect false w).0).0)
unfolding find compare_text last
first_lower_switch_example =
    first_lower_switch parser config reachable [] request (board (text "b")) 3 asked
      (serving (text "c")) (text "c") (new_handler (board (text "c"))) refl refl (tt, tt) refl refl
      refl

config-IsTable : IsTable config.map_oid_switch_info
unfolding compare_text
config-IsTable = ground arith

serving-IsWell : IsWell config (serving (text "a"))
unfolding find compare_text
serving-IsWell = record {
  sorted = (tt, tt);
  served = ((board (text "a"), refl, new_handler-IsFor (board (text "a"))), tt);
}

first_greatest_switch_example :
    let (e, reply) = on_recv_mqtt_message parser config reachable [] (serving (text "a")) in
    (reply ≡ opened)
    × ((h : Handler) × (find (text "b") e.handlers ≡ some h) × IsOpening 3 (task_of (pos 5000) 9) h)
    × (find (text "a") e.handlers ≡ find (text "a") (serving (text "a")).handlers)
unfolding find compare_text
first_greatest_switch_example =
    first_greatest_switch parser config reachable [] request (board (text "b")) 3 asked
      (serving (text "a")) (text "a") refl refl (tt, tt) refl (refl, tt) b_ne_a

first_unreachable_switch_example :
    let (e, reply) = on_recv_mqtt_message parser config unreachable [] (serving (text "a")) in
    (reply ≡ not_connected)
    × ((h : Handler) × (find (text "b") e.handlers ≡ some h) × IsRetrying h)
    × (find (text "a") e.handlers ≡ find (text "a") (serving (text "a")).handlers)
unfolding find compare_text
first_unreachable_switch_example =
    first_unreachable_switch parser config unreachable [] request (board (text "b")) 3 asked
      (serving (text "a")) (text "a") refl refl (tt, tt) refl (refl, tt) b_ne_a
