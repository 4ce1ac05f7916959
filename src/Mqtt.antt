-- ===== src/Mqtt.antt =====
-- src/DoorSwitchMqttProxy.h and .cpp: the client of the MQTT broker. Calls of mosquitto are recorded,
-- newest first; a message is delivered by giving back the text that the callback is called with.
use Prim.Native.Nat.{Ordering}
use door_switch_svr.Prelude.{
  ℕ, zero, suc, List, [], ◌∷◌, Bool, true, false, Option, none, some, if◌then◌else◌,
}
use door_switch_svr.Prelude.Int.{ℤ, pos, negsuc}
use door_switch_svr.OrderedMap.{cmp, key_text}
use door_switch_svr.Param.{Text, MqttCfg}

pub data MosqCall : Type 0 where
  lib_init loop_start disconnect loop_stop lib_cleanup : MosqCall
  connect : Text → ℤ → MosqCall
  subscribe : Text → MosqCall

pub record Proxy : Type 0 where
  pub mqtt_cfg : MqttCfg
  pub calls : List MosqCall

-- A payload is `none` where the pointer is NULL.
pub record MosquittoMessage : Type 0 where
  pub topic : Text
  pub payload : Option (List ℕ)

-- The text that a `char *` stands for: the bytes before the first zero.
unfoldable pub c_str : List ℕ → Text
c_str [] = []
c_str (zero ∷ bytes) = []
c_str (suc b ∷ bytes) = suc b ∷ c_str bytes

-- `strcmp(a, b) == 0`.
unfoldable pub same_c_str : List ℕ → List ℕ → Bool
unfolding c_str
same_c_str a b = elim (cmp (c_str a) (c_str b)) [ Ordering.eq ↦ true | _ ↦ false ]

unfoldable pub new_proxy : MqttCfg → Proxy
new_proxy cfg = record {
  mqtt_cfg = cfg;
  calls = loop_start ∷ connect cfg.ip cfg.port ∷ lib_init ∷ [];
}

unfoldable pub destroy : Proxy → Proxy
destroy p = record p { calls = lib_cleanup ∷ loop_stop ∷ disconnect ∷ p.calls }

unfoldable pub on_connect : ℤ → Proxy → Proxy
on_connect (pos zero) p = record p { calls = subscribe p.mqtt_cfg.topic ∷ p.calls }
on_connect (pos (suc n)) p = p
on_connect (negsuc n) p = p

unfoldable pub payload_text : Option (List ℕ) → Bool → Option Text
unfolding c_str
payload_text none same = none
payload_text (some bytes) same = if same then some (c_str bytes) else none

unfoldable pub on_message : MosquittoMessage → Proxy → Option Text
unfolding payload_text same_c_str
on_message message p = payload_text message.payload (same_c_str message.topic p.mqtt_cfg.topic)
