-- ===== src/StreamNode/Request.antt =====
-- What a node publishes, as the server's proxy and engine take it.
use Prim.Native.Nat.{Ordering}
use door_switch_svr.Prelude.{
  ℕ, zero, suc, ◌≤◌, [], ◌∷◌, ◌≡◌, refl, sym, ◌≢◌, true, false, some, ap, All,
}
use door_switch_svr.Prelude.Int.{ℤ, pos}
use door_switch_svr.OrderedMap.{cmp, key_text, compare_text, find}
use door_switch_svr.OrderedMap.Laws.{cmp_self, lt-ne}
use door_switch_svr.OrderedMap.Every.{All-find}
use door_switch_svr.Param.{Text, text, SwitchInfo, SvrCfg}
use door_switch_svr.Poco.{Json, JsonWriter, ok}
use door_switch_svr.Mqtt.{Proxy, c_str, same_c_str, payload_text, on_message}
use door_switch_svr.Engine.{OpenDoorRequest, read_request}
use door_switch_svr.Engine.Request.{Asks}
use door_switch_svr.Svr.Load.Loaded.{IsTable, IsEntry}
use door_switch_svr.StreamNode.{Node, NodeCall, publish, sleep, root_obj, message, run}

-- What is documented of Poco's JSON: a value that was set is found, another key does not touch it, the
-- text of an object that a node builds is parsed back to it and holds no zero byte.
pub record IsJson (json : Json) (writer : JsonWriter json) : Type 0 where
  pub get_string-set :
      (k s : Text) (o : json.Object) → json.get_string (writer.set_string k s o) k ≡ ok s
  pub get_int-set :
      (k : Text) (n : ℤ) (o : json.Object) → json.get_int (writer.set_int k n o) k ≡ ok n
  pub get_string-set_int :
      (k j : Text) (n : ℤ) (o : json.Object)
      → k ≢ j
      → json.get_string (writer.set_int j n o) k ≡ json.get_string o k
  pub get_int-set_int :
      (k j : Text) (n : ℤ) (o : json.Object)
      → k ≢ j
      → json.get_int (writer.set_int j n o) k ≡ json.get_int o k
  pub parsed : Node → json.Value
  pub parse-stringify :
      (n : Node) → json.parse (writer.stringify (root_obj json writer n)) ≡ ok (parsed n)
  pub extract-parsed : (n : Node) → json.extract (parsed n) ≡ ok (root_obj json writer n)
  pub no_zero : (n : Node) → All (λ b. b ≢ 0) (writer.stringify (root_obj json writer n))

id_ne_channel : text "switch_id" ≢ text "channel"
unfolding compare_text
id_ne_channel = λ e. lt-ne (text "channel") (text "switch_id") refl (sym e)

id_ne_close : text "switch_id" ≢ text "close"
unfolding compare_text
id_ne_close = λ e. lt-ne (text "close") (text "switch_id") refl (sym e)

channel_ne_close : text "channel" ≢ text "close"
unfolding compare_text
channel_ne_close = lt-ne (text "channel") (text "close") refl

c_str_whole : (t : Text) → All (λ b. b ≢ 0) t → c_str t ≡ t
unfolding c_str
c_str_whole [] h = refl
c_str_whole (zero ∷ t) h = absurd (h.0 refl)
c_str_whole (suc b ∷ t) h = ap (λ r. suc b ∷ r) (c_str_whole t h.1)

c_str_twice : (t : Text) → c_str (c_str t) ≡ c_str t
unfolding c_str
c_str_twice [] = refl
c_str_twice (zero ∷ t) = refl
c_str_twice (suc b ∷ t) = ap (λ r. suc b ∷ r) (c_str_twice t)

equal_texts : (a b : Text) → a ≡ b → (elim (cmp a b) [ Ordering.eq ↦ true | _ ↦ false ]) ≡ true
equal_texts a b e = rw (e, cmp_self b) refl

same-c_str : (t : Text) → same_c_str (c_str t) t ≡ true
unfolding same_c_str
same-c_str t = (equal_texts (c_str (c_str t)) (c_str t) (c_str_twice t))

-- A call of a node, as it reaches the server: a message that is published is let through by the proxy
-- and asks for this door of this switch.
abbrev pub Reaches :
    (json : Json) → Proxy → SvrCfg → OpenDoorRequest → SwitchInfo → ℕ → NodeCall → Type 0
Reaches json proxy cfg req info c (publish topic payload qos retain) =
    (on_message (record { topic = topic; payload = some payload }) proxy ≡ some payload)
    × Asks json cfg payload req info c
Reaches json proxy cfg req info c (sleep seconds) = Unit {0}

abbrev pub request_of : Node → OpenDoorRequest
request_of n = record {
  switch_id = n.switch_id;
  channel = pos n.channel;
  close_after = pos n.close_after_ms;
}

module _ (json : Json) (writer : JsonWriter json) (laws : IsJson json writer) (n : Node) where
  read-message : read_request json (message json writer n) ≡ ok (request_of n)
  unfolding read_request message root_obj
  read-message =
      let id = laws.get_string-set (text "switch_id") n.switch_id writer.empty in
      let o₁ = writer.set_string (text "switch_id") n.switch_id writer.empty in
      let o₂ = writer.set_int (text "channel") (pos n.channel) o₁ in
      rw
        (
          laws.parse-stringify n,
          laws.extract-parsed n,
          laws.get_string-set_int _ _ (pos n.close_after_ms) o₂ id_ne_close,
          laws.get_string-set_int _ _ (pos n.channel) o₁ id_ne_channel,
          id,
          laws.get_int-set_int _ _ (pos n.close_after_ms) o₂ channel_ne_close,
          laws.get_int-set (text "channel") (pos n.channel) o₁,
          laws.get_int-set (text "close") (pos n.close_after_ms) o₂,
        )
        refl

  -- With JSON that is printed and parsed as documented, every message that a node publishes, in
  -- any number of passes, is let through by a proxy of the same topic with its whole payload; and
  -- if the table of the server is well-formed, has the switch of the node, and the switch has the
  -- channel of the node, the message asks the engine for that door (`Asks`).
  pub published_asks :
      (proxy : Proxy) (cfg : SvrCfg) (info : SwitchInfo) (k : ℕ)
      → proxy.mqtt_cfg.topic ≡ n.param.mosq_topic
      → IsTable cfg.map_oid_switch_info
      → find n.switch_id cfg.map_oid_switch_info ≡ some info
      → 1 ≤ n.channel
      → n.channel ≤ info.channels
      → All (Reaches json proxy cfg (request_of n) info n.channel) (run json writer k n)
  unfolding run message on_message payload_text
  published_asks proxy cfg info zero topic table found l u = tt
  published_asks proxy cfg info (suc k) topic table found l u =
      let (own, width, _) =
        All-find IsEntry n.switch_id info cfg.map_oid_switch_info found table.1 in
      let through : same_c_str (c_str n.param.mosq_topic) proxy.mqtt_cfg.topic ≡ true =
        rw topic (same-c_str n.param.mosq_topic) in
      (
        (
          rw through (ap some (c_str_whole _ (laws.no_zero n))),
          record {
            reads = read-message;
            found = found;
            own_id = own;
            asked = refl;
            lower = l;
            upper = u;
            width = width;
          },
        ),
        (tt, published_asks proxy cfg info k topic table found l u),
      )
