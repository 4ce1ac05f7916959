-- ===== src/Serving.antt =====
-- src/DoorSwitchSvr.cpp, main, between the construction of the engine and the termination request: the
-- server with all its threads. A step is one call of mosquitto's thread, or one event of a handler's
-- threads (one half of a call of its timer, a turn of a door's thread, a reply or a timeout of the board). The server's state is
-- kept with two records that the program does not have: the doors that messages asked for, and the
-- commands that were sent.
pub mod Safe
pub mod Hear
pub mod Act
pub mod Invariant
pub mod Safety
pub mod Boards
pub mod Routed
pub mod Turns
pub mod Opens
pub mod Online
pub mod Again
pub mod Round
pub mod Rounds
pub mod Apart
pub mod Among
pub mod Elsewhere
pub mod Amid
pub mod Service
pub mod First
pub mod Timeout
pub mod Sample
mod Tests
use door_switch_svr.Prelude.{
  ℕ, List, [], ◌∷◌, ◌++◌, ◌≡◌, ◌⊎◌, Bool, true, false, ◌&&◌, Option, none, some, if◌then◌else◌,
}
use door_switch_svr.Prelude.Int.{pos, pos_part, leb_ℤ}
use door_switch_svr.OrderedMap.{key_ℕ, key_text, find, adjust}
use door_switch_svr.Param.{Text, SwitchInfo, SvrCfg}
use door_switch_svr.Poco.{Json, Result, ok, thrown}
use door_switch_svr.Controller.{Controller}
use door_switch_svr.Controller.Run.{Request, turn}
use door_switch_svr.Handler.{Handler}
use door_switch_svr.Handler.Event.{
  Event, timer_fires, timer_returns, thread_turns, reads, checks, step,
}
use door_switch_svr.Engine.{OpenDoorRequest, Engine, read_request, new_engine}
use door_switch_svr.Mqtt.{MosquittoMessage, Proxy, new_proxy, on_message}
use door_switch_svr.Svr.{BrokerEvent, connected, delivered, receive}

-- A command on its way to the board of a switch.
pub record Sent : Type 0 where
  pub switch_id : Text
  pub request : Request
  pub channel : ℕ

pub record Server : Type 0 where
  pub proxy : Proxy
  pub engine : Engine
  pub asked : List (Text × ℕ)
  pub sent : List Sent

unfoldable pub new_server : SvrCfg → Server
unfolding new_proxy new_engine
new_server cfg = record {
  proxy = new_proxy cfg.mqtt_cfg;
  engine = new_engine;
  asked = [];
  sent = [];
}

-- The door that a request asks for, if its switch, by the configuration, has it.
wanted_door : OpenDoorRequest → Option SwitchInfo → List (Text × ℕ)
wanted_door req none = []
wanted_door req (some info) =
    if leb_ℤ (pos 1) req.channel && leb_ℤ req.channel (pos info.channels)
    then (req.switch_id, pos_part req.channel) ∷ []
    else []

wanted_by : SvrCfg → Result OpenDoorRequest → List (Text × ℕ)
unfolding wanted_door
wanted_by cfg (thrown what) = []
wanted_by cfg (ok req) = wanted_door req (find req.switch_id cfg.map_oid_switch_info)

pub wanted : Json → SvrCfg → Option Text → List (Text × ℕ)
unfolding wanted_by
wanted json cfg none = []
wanted json cfg (some payload) = wanted_by cfg (read_request json payload)

pub asks_of : Json → SvrCfg → BrokerEvent → Proxy → List (Text × ℕ)
unfolding wanted
asks_of json cfg (connected rc) p = []
asks_of json cfg (delivered env message) p = wanted json cfg (on_message message p)

unfoldable pub hear : Json → SvrCfg → BrokerEvent → Server → Server
unfolding asks_of receive
hear json cfg event s =
    let (proxy, engine) = receive json cfg event (s.proxy, s.engine) in
    record s { proxy = proxy; engine = engine; asked = asks_of json cfg event s.proxy ++ s.asked }

pub sent_by : Text → ℕ → Option Request → List Sent
sent_by k channel none = []
sent_by k channel (some r) = record { switch_id = k; request = r; channel = channel } ∷ []

-- What the thread of a door sends in a turn.
sends_found : Text → ℕ → Handler → Option Controller → List Sent
unfolding sent_by
sends_found k now h none = []
sends_found k now h (some c) = sent_by k c.channel (turn h.switch_info.type now c.worker).1

pub sends : Text → Event → Handler → List Sent
unfolding sends_found
sends k (thread_turns channel result now) h = sends_found k now h (find channel h.controllers)
sends k _ h = []

unfoldable pub act : Text → Event → Handler → Handler → Server → Server
unfolding sends
act k event h h' s = record s {
  engine = record { handlers = adjust k (λ _. h') s.engine.handlers };
  sent = sends k event h ++ s.sent;
}

act_moved : Text → Event → Handler → Option Handler → Server → Option Server
unfolding act
act_moved k event h none s = none
act_moved k event h (some h') s = some (act k event h h' s)

act_found : Text → Event → Option Handler → Server → Option Server
unfolding act_moved
act_found k event none s = some s
act_found k event (some h) s = act_moved k event h (step event h) s

-- An event of the handler of a switch, if it has one; `none` is undefined behaviour.
unfoldable pub act_on : Text → Event → Server → Option Server
unfolding act_found
act_on k event s = act_found k event (find k s.engine.handlers) s

-- The events that a handler's own threads make.
abbrev pub is_own : Event → Bool
is_own (timer_fires error) = true
is_own timer_returns = true
is_own (thread_turns channel result now) = true
is_own (reads channel ec size) = true
is_own (checks channel now) = true
is_own _ = false

pub data Step (json : Json) (cfg : SvrCfg) (s : Server) : Server → Type 0 where
  hears : (event : BrokerEvent) → Step json cfg s (hear json cfg event s)
  acts :
      (k : Text) (event : Event) {h h' : Handler}
      → is_own event ≡ true
      → find k s.engine.handlers ≡ some h
      → step event h ≡ some h'
      → Step json cfg s (act k event h h' s)

pub data Reach (json : Json) (cfg : SvrCfg) : Server → Type 0 where
  begins : Reach json cfg (new_server cfg)
  later : {s t : Server} → Reach json cfg s → Step json cfg s t → Reach json cfg t
