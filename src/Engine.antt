-- ===== src/Engine.antt =====
-- src/DoorSwitchEngine.h and .cpp: messages in, doors opened. The reply names the branch, which the
-- code tells by what it logs.
pub mod Request
pub mod Known
pub mod Created
pub mod Dispatch
pub mod Invariant
pub mod Every
pub mod InOrder
mod Tests
use door_switch_svr.Prelude.{
  ℕ, List, [], ◌∷◌, Bool, true, false, ◌||◌, Option, none, some, map, if◌then◌else◌,
}
use door_switch_svr.Prelude.Int.{ℤ, pos, leb_ℤ, ltb_ℤ, i16}
use door_switch_svr.OrderedMap.{Map, key_text, find, insert, adjust, last, adjust_last}
use door_switch_svr.Param.{Text, text, SwitchInfo, SvrCfg, ErrCode, is_ok}
use door_switch_svr.Poco.{Json, Result, ok, thrown, ◌>>=◌}
use door_switch_svr.Handler.{Handler, new_handler, connect, open_door}
use door_switch_svr.Handler

pub record OpenDoorRequest : Type 0 where
  pub switch_id : Text
  pub channel : ℤ
  pub close_after : ℤ

pub record Engine : Type 0 where
  pub handlers : Map Text Handler

unfoldable pub new_engine : Engine
new_engine = record { handlers = [] }

-- `address_thrown` is the exception of `address::from_string` in the constructor of the handler, which
-- nothing in the program catches: it ends the process (`ends_process` of Svr.Main); the steps of
-- Serving go on with the engine as it was.
pub data Reply : Type 0 where
  malformed : Text → Reply
  unknown_switch bad_channel address_thrown not_connected opened : Reply
  failed : ErrCode → Reply

-- What surrounds a message: the time, the result of a connect, and which texts are addresses.
pub record Surroundings : Type 0 where
  pub now : ℕ
  pub connect_error : Bool
  pub is_address : Text → Bool

unfoldable pub read_request : Json → Text → Result OpenDoorRequest
read_request json message = do
  result ← json.parse message
  j_object ← json.extract result
  switch_id ← json.get_string j_object (text "switch_id")
  channel ← json.get_int j_object (text "channel")
  close_after ← json.get_int j_object (text "close")
  ok (record { switch_id = switch_id; channel = channel; close_after = close_after })

unfoldable pub create_switch_handler : SwitchInfo → Engine → Engine
create_switch_handler info e = record e { handlers = insert info.oid (new_handler info) e.handlers }

pub reply_of : ErrCode → Reply
reply_of res = if is_ok res then opened else failed res

-- `openDoor` on a handler, with its result: `channel` is narrowed to `short`.
pub open_on : OpenDoorRequest → Surroundings → Handler → Handler × ErrCode
open_on req env h = open_door (i16 req.channel) req.close_after env.now h

-- `connect()` and `openDoor` on the handler that `crbegin()` names.
pub connect_open : OpenDoorRequest → Surroundings → Handler → Handler × Reply
unfolding open_on reply_of
connect_open req env h =
    let (h', reached) = connect env.connect_error h in
    if reached
    then (let (h'', res) = open_on req env h' in (h'', reply_of res))
    else (h', not_connected)

-- The case of no handler at all does not arise: one was just inserted.
use_last : OpenDoorRequest → Surroundings → Option (Text × Handler) → Engine → Engine × Reply
unfolding connect_open
use_last req env none e = (e, not_connected)
use_last req env (some (oid, h)) e =
    let (h', reply) = connect_open req env h in
    (record e { handlers = adjust_last (λ _. h') e.handlers }, reply)

pub with_handler :
    OpenDoorRequest → Surroundings → SwitchInfo → Option Handler → Engine → Engine × Reply
unfolding use_last open_on reply_of
with_handler req env info none e =
    if env.is_address info.ip
    then (let e' = create_switch_handler info e in use_last req env (last e'.handlers) e')
    else (e, address_thrown)
with_handler req env info (some h) e =
    let (h', res) = open_on req env h in
    (record e { handlers = adjust req.switch_id (λ _. h') e.handlers }, reply_of res)

with_info : OpenDoorRequest → Surroundings → Option SwitchInfo → Engine → Engine × Reply
unfolding with_handler
with_info req env none e = (e, unknown_switch)
with_info req env (some info) e =
    if leb_ℤ req.channel (pos 0) || ltb_ℤ (pos info.channels) req.channel
    then (e, bad_channel)
    else with_handler req env info (find req.switch_id e.handlers) e

with_request : SvrCfg → Surroundings → Result OpenDoorRequest → Engine → Engine × Reply
unfolding with_info
with_request cfg env (thrown what) e = (e, malformed what)
with_request cfg env (ok req) e = with_info req env (find req.switch_id cfg.map_oid_switch_info) e

unfoldable pub on_recv_mqtt_message : Json → SvrCfg → Surroundings → Text → Engine → Engine × Reply
unfolding read_request with_request
on_recv_mqtt_message json cfg env message e = with_request cfg env (read_request json message) e

-- `~DoorSwitchEngine`: the handlers as they are closed, and the engine without them.
unfoldable pub destroy : Engine → List Handler × Engine
unfolding Handler.close
destroy e = (map (λ entry. Handler.close entry.1) e.handlers, record e { handlers = [] })
