-- ===== src/Serving/Invariant.antt =====
-- The invariant in every state that the server can come to.
use door_switch_svr.OrderedMap.{key_ℕ, key_text}
use door_switch_svr.Param.{SvrCfg}
use door_switch_svr.Poco.{Json}
use door_switch_svr.Engine.{new_engine}
use door_switch_svr.Svr.Load.Loaded.{IsTable}
use door_switch_svr.Serving.{Server, new_server, Step, hears, acts, Reach, begins, later}
use door_switch_svr.Serving.Safe.{IsSafe}
use door_switch_svr.Serving.Hear.{hear-IsSafe}
use door_switch_svr.Serving.Act.{act-IsSafe}

new_server-IsSafe : (cfg : SvrCfg) → IsSafe cfg (new_server cfg)
unfolding new_server new_engine
new_server-IsSafe cfg = record {
  well = record { sorted = tt; served = tt };
  alive = tt;
  sound = tt;
  allowed = tt;
  justified = tt;
}

Step-IsSafe :
    (json : Json) (cfg : SvrCfg) (s t : Server)
    → IsTable cfg.map_oid_switch_info
    → Step json cfg s t
    → IsSafe cfg s
    → IsSafe cfg t
Step-IsSafe json cfg s _ t (hears event) i = hear-IsSafe json cfg event s t i
Step-IsSafe json cfg s _ t (acts k event {h} {h'} own found moved) i =
    act-IsSafe cfg k event h h' s own found moved i

pub Reach-IsSafe :
    (json : Json) (cfg : SvrCfg) (s : Server)
    → IsTable cfg.map_oid_switch_info
    → Reach json cfg s
    → IsSafe cfg s
Reach-IsSafe json cfg _ t begins = new_server-IsSafe cfg
Reach-IsSafe json cfg s' t (later {s = s} r moves) =
    Step-IsSafe json cfg s s' t moves (Reach-IsSafe json cfg s t r)
