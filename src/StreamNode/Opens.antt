-- ===== src/StreamNode/Opens.antt =====
-- From a node of the test program to the relay: what it publishes first, at a server that has just started.
use door_switch_svr.Prelude.{
  ◌==◌, arith, false, ◌∙◌, ap, ℕ, ◌+◌, ◌*◌, ◌≤◌, ◌<◌, List, [], ◌∷◌, ◌≡◌, refl, subst, true, false,
  some,
}
use door_switch_svr.OrderedMap.{key_text, find}
use door_switch_svr.Param.{Text, SwitchInfo, SvrCfg}
use door_switch_svr.Poco.{Json, JsonWriter}
use door_switch_svr.Controller.{WriteResult}
use door_switch_svr.Controller.Run.{opening, closing}
use door_switch_svr.Engine.{Surroundings, new_engine}
use door_switch_svr.Mqtt.{MosquittoMessage, c_str, new_proxy}
use door_switch_svr.Svr.{delivered}
use door_switch_svr.Svr.Load.Loaded.{IsTable}
use door_switch_svr.Serving.{Server, new_server, hear, begins}
use door_switch_svr.Serving.Boards.{relays_of}
use door_switch_svr.Controller.Board.{obey-command}
use door_switch_svr.OrderedMap.Laws.{cmp_self}
use door_switch_svr.Serving.Opens.{command_to, message_opens_door}
use door_switch_svr.Serving.Turns.{run_door}
use door_switch_svr.StreamNode.{Node, message, run}
use door_switch_svr.StreamNode.Request.{IsJson, request_of, published_asks}

-- The first message of a node.
abbrev pub first_message : (json : Json) → JsonWriter json → Node → MosquittoMessage
first_message json writer n = record {
  topic = c_str n.param.mosq_topic;
  payload = some (message json writer n);
}

-- The relays of the board of switch `k` after a command to open door `c`, and after one more to close it,
-- if all were closed before.
cycle_relays :
    (k : Text) (c n : ℕ)
    → 1 ≤ c
    → c ≤ 15
    → 1 ≤ n
    → n ≤ 16
    → (relays_of k (command_to k c opening ∷ []) n ≡ (c == n))
      × (relays_of k (command_to k c closing ∷ command_to k c opening ∷ []) n ≡ false)
cycle_relays k c n lc uc ln un =
    let opened = obey-command c n lc uc ln un (relays_of k []) opening in
    let closed = obey-command c n lc uc ln un (relays_of k (command_to k c opening ∷ [])) closing in
    ground (arith, opened, closed, cmp_self k)

-- In some turns the thread of the door sends one command, to open it, and in the turns after these one
-- more, to close it. After the first, relay `n` of the board of the switch is open exactly if it is the door's,
-- and after the second it is not.
abbrev pub IsCycle :
    Text → ℕ → List (WriteResult × ℕ) → List (WriteResult × ℕ) → ℕ → Server → Type 0
IsCycle k c first rest n heard =
    (s1 : Server) × (s2 : Server) × (run_door k c first heard ≡ some s1)
    × (s1.sent ≡ command_to k c opening ∷ heard.sent)
    × (run_door k c rest s1 ≡ some s2)
    × (s2.sent ≡ command_to k c closing ∷ command_to k c opening ∷ heard.sent)
    × (relays_of k s1.sent n ≡ (c == n))
    × (relays_of k s2.sent n ≡ false)

-- With JSON that is printed and parsed as documented: the first message that a node publishes, at
-- a server that has just started with the same topic, opens the node's door and closes it again,
-- if the table of the server is well-formed and has the switch of the node, the switch has the
-- channel of the node, at most 15, its ip is an address, the connect succeeds, and the door's
-- thread takes the task in its second turn, before the task's time and before about 24 days have
-- run out. Of three turns of this thread, the third at any time and each with any result of a
-- write, the first two send one command, to open the door, and the third one more, to close it; if
-- these arrive at a board with all relays closed, of its 16 relays that of the node's door and no
-- other is open in between, and none is open afterwards.
pub node_opens_door :
    (json : Json) (writer : JsonWriter json) (n : Node) (cfg : SvrCfg) (info : SwitchInfo)
    (env : Surroundings) (r0 r1 r2 : WriteResult) (t0 t1 t2 i : ℕ)
    → IsJson json writer
    → cfg.mqtt_cfg.topic ≡ n.param.mosq_topic
    → IsTable cfg.map_oid_switch_info
    → find n.switch_id cfg.map_oid_switch_info ≡ some info
    → 1 ≤ n.channel
    → n.channel ≤ info.channels
    → n.channel ≤ 15
    → env.is_address info.ip ≡ true
    → env.connect_error ≡ false
    → env.now ≤ t1
    → t1 < env.now + 1000 * n.close_after_ms
    → t1 < env.now + 2147483648000
    → 1 ≤ i
    → i ≤ 16
    → let heard = hear json cfg (delivered env (first_message json writer n)) (new_server cfg) in
      IsCycle n.switch_id n.channel ((r0, t0) ∷ (r1, t1) ∷ []) ((r2, t2) ∷ []) i heard
unfolding new_server hear new_proxy new_engine find run
node_opens_door json writer n cfg info env r0 r1 r2 t0 t1 t2 i laws topic table found l u small
      address reached started soon fits li ui =
    let (through, asks) =
      (published_asks json writer laws n (new_server cfg).proxy cfg info 1 topic table found l
        u).0 in
    let (s1, s2, w, ran, has, sleeps, sent, ran', sent', reach) =
      message_opens_door json cfg table (new_server cfg) begins env (first_message json writer n)
        (message json writer n) through (request_of n) info n.channel asks address reached refl tt
        r0 r1 r2 t0 t1 t2 n.close_after_ms small refl started soon fits in
    let heard = hear json cfg (delivered env (first_message json writer n)) (new_server cfg) in
    let (opened, closed) = cycle_relays info.oid n.channel i l small li ui in
    let cycle : IsCycle info.oid n.channel ((r0, t0) ∷ (r1, t1) ∷ []) ((r2, t2) ∷ []) i heard = (
      s1,
      s2,
      ran,
      sent,
      ran',
      sent',
      ap (λ xs. relays_of info.oid xs i) sent ∙ opened,
      ap (λ xs. relays_of info.oid xs i) sent' ∙ closed,
    ) in
    subst (λ k. IsCycle k n.channel ((r0, t0) ∷ (r1, t1) ∷ []) ((r2, t2) ∷ []) i heard) asks.own_id
      cycle
