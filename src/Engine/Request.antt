-- ===== src/Engine/Request.antt =====
-- What a message must say for the engine to act on it.
use door_switch_svr.Prelude.{
  ℕ, ◌≤◌, ◌<◌, ◌≡◌, refl, ◌∙◌, ◌⊎◌, inl, inr, Option, none, some, arith, ap, false, ◌||◌,
}
use door_switch_svr.Prelude.Int.{ℤ, pos, ◌≤ℤ◌, leb_ℤ, ltb_ℤ, i16, u16, u16-i16, u16-pos}
use door_switch_svr.OrderedMap.{key_text, find}
use door_switch_svr.Param.{Text, SwitchInfo, SvrCfg}
use door_switch_svr.Poco.{Json, Result, ok, thrown}
use door_switch_svr.Engine.{
  OpenDoorRequest, Engine, Surroundings, read_request, with_handler, with_info, with_request,
  on_recv_mqtt_message,
}

-- The message is a request for channel `c`, one of those of the switch it names, whose entry in the
-- configuration has its own id and a number of channels that `unsigned short` holds.
pub record Asks (json : Json) (cfg : SvrCfg) (message : Text) (req : OpenDoorRequest)
    (info : SwitchInfo) (c : ℕ) : Type 0 where
  pub reads : read_request json message ≡ ok req
  pub found : find req.switch_id cfg.map_oid_switch_info ≡ some info
  pub own_id : info.oid ≡ req.switch_id
  pub asked : req.channel ≡ pos c
  pub lower : 1 ≤ c
  pub upper : c ≤ info.channels
  pub width : info.channels < 65536

module _ (json : Json) (cfg : SvrCfg) (env : Surroundings) (message : Text) (req : OpenDoorRequest)
    (info : SwitchInfo) (c : ℕ) (asks : Asks json cfg message req info c) where
  -- Such a message reaches the handlers.
  pub recv-with_handler :
      (e : Engine)
      → on_recv_mqtt_message json cfg env message e
        ≡ with_handler req env info (find req.switch_id e.handlers) e
  unfolding on_recv_mqtt_message with_request with_info
  recv-with_handler e =
      let in_range : (leb_ℤ req.channel (pos 0) || ltb_ℤ (pos info.channels) req.channel) ≡ false =
        in_range_of req.channel asks.asked in
      rw (asks.reads, with_request, asks.found, with_info) (rw in_range)
    where
      in_range_of : (a : ℤ) → a ≡ pos c → (leb_ℤ a (pos 0) || ltb_ℤ (pos info.channels) a) ≡ false
      in_range_of a q = ground (arith, asks.lower, asks.upper)

  -- The narrowing to `short` and back keeps the channel.
  pub narrowed : u16 (i16 req.channel) ≡ c
  narrowed =
      u16-i16 req.channel ∙ ap u16 asks.asked ∙ u16-pos c (omega (arith, asks.upper, asks.width))

-- A message changes nothing in the engine unless it reads as a request, names a switch of the
-- configuration, and asks for a channel from 1 to the number of channels of that switch.
pub change_needs_request :
    (json : Json) (cfg : SvrCfg) (env : Surroundings) (message : Text) (e : Engine)
    → ((on_recv_mqtt_message json cfg env message e).0 ≡ e)
      ⊎ ((req : OpenDoorRequest) × (info : SwitchInfo) × (read_request json message ≡ ok req)
          × (find req.switch_id cfg.map_oid_switch_info ≡ some info)
          × (pos 1 ≤ℤ req.channel)
          × (req.channel ≤ℤ pos info.channels))
unfolding on_recv_mqtt_message
change_needs_request json cfg env message e = by_request (read_request json message)
  where
    by_info :
        (req : OpenDoorRequest) (o : Option SwitchInfo)
        → ((with_info req env o e).0 ≡ e)
          ⊎ ((info : SwitchInfo) × (o ≡ some info)
              × (pos 1 ≤ℤ req.channel)
              × (req.channel ≤ℤ pos info.channels))
    by_info req none = unfold with_info in inl refl
    by_info req (some info) = unfold with_info in ground arith

    by_request :
        (r : Result OpenDoorRequest)
        → ((with_request cfg env r e).0 ≡ e)
          ⊎ ((req : OpenDoorRequest) × (info : SwitchInfo) × (r ≡ ok req)
              × (find req.switch_id cfg.map_oid_switch_info ≡ some info)
              × (pos 1 ≤ℤ req.channel)
              × (req.channel ≤ℤ pos info.channels))
    by_request (thrown what) = unfold with_request in inl refl
    by_request (ok req) =
        unfold with_request in
        elim (by_info req (find req.switch_id cfg.map_oid_switch_info)) [
          | inl same ↦ inl same
          | inr (info, found, l, u) ↦ inr (req, info, refl, found, l, u)
        ]
