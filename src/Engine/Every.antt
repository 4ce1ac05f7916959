-- ===== src/Engine/Every.antt =====
-- A property of handlers that every engine keeps, whatever message comes.
use door_switch_svr.Prelude.{
  ℕ, ◌≡◌, refl, sym, subst, inl, inr, Option, none, some, arith, All, Bool, ◌≤◌,
}
use door_switch_svr.Prelude.Int.{ℤ, pos, negsuc, i16, ◌≤ℤ◌}
use door_switch_svr.OrderedMap.{key_text, find, last}
use door_switch_svr.OrderedMap.Every.{All-find, All-insert, All-adjust, All-last, All-adjust_last}
use door_switch_svr.Param.{Text, SwitchInfo, SvrCfg}
use door_switch_svr.Poco.{Json, ok}
use door_switch_svr.Handler.{Handler, new_handler, connect}
use door_switch_svr.Handler.Event.{Event, connects, opens, IsKeptBy}
use door_switch_svr.Svr.Load.Loaded.{IsTable, IsEntry}
use door_switch_svr.Engine.{
  OpenDoorRequest, Engine, Surroundings, create_switch_handler, open_on, connect_open, use_last,
  with_handler, on_recv_mqtt_message, Reply, read_request,
}
use door_switch_svr.Engine.Request.{Asks, change_needs_request, recv-with_handler}

-- A number from 1 on is positive.
pub positive : (a : ℤ) → pos 1 ≤ℤ a → (c : ℕ) × (a ≡ pos c)
positive (pos n) l = (n, refl)
positive (negsuc n) l = absurd (omega arith)

pub request-Asks :
    (json : Json) (cfg : SvrCfg) (message : Text) (req : OpenDoorRequest) (info : SwitchInfo)
    → IsTable cfg.map_oid_switch_info
    → read_request json message ≡ ok req
    → find req.switch_id cfg.map_oid_switch_info ≡ some info
    → pos 1 ≤ℤ req.channel
    → req.channel ≤ℤ pos info.channels
    → (c : ℕ) × Asks json cfg message req info c
request-Asks json cfg message req info t reads found l u =
    let (c, asked) = positive req.channel l in
    let (own_id, width, _) =
      All-find IsEntry req.switch_id info cfg.map_oid_switch_info found t.1 in
    let bounds : (1 ≤ c) × (c ≤ info.channels) = between req.channel c asked l u in
    (
      c,
      record {
        reads = reads;
        found = found;
        own_id = own_id;
        asked = asked;
        lower = bounds.0;
        upper = bounds.1;
        width = width;
      },
    )
  where
    between :
        (a : ℤ) (c : ℕ)
        → a ≡ pos c
        → pos 1 ≤ℤ a
        → a ≤ℤ pos info.channels
        → (1 ≤ c) × (c ≤ info.channels)
    between a c q l u = ground arith

module _ (Fair : Event → Type 0) (P : Handler → Type 0) (kept : IsKeptBy Fair P)
    (new : (info : SwitchInfo) → P (new_handler info))
    (connect_fair : (error : Bool) → Fair (connects error)) where
  abbrev pub EveryHandler : Engine → Type 0
  EveryHandler e = All (λ (entry : Text × Handler). P entry.1) e.handlers

  module _ (env : Surroundings) (req : OpenDoorRequest)
      (fair : Fair (opens (i16 req.channel) req.close_after env.now)) where
    pub open_on-kept : (h : Handler) → P h → P (open_on req env h).0
    unfolding open_on
    open_on-kept h p = kept.opens (i16 req.channel) req.close_after env.now h fair p

    pub connect_open-kept : (h : Handler) → P h → P (connect_open req env h).0
    unfolding connect_open
    connect_open-kept h p =
        let c = kept.connects env.connect_error h (connect_fair env.connect_error) p in
        ground (arith, c, open_on-kept (connect env.connect_error h).0 c)

    use_last-kept :
        (o : Option (Text × Handler)) (e : Engine)
        → last e.handlers ≡ o
        → EveryHandler e
        → EveryHandler (use_last req env o e).0
    unfolding use_last
    use_last-kept none e l a = a
    use_last-kept (some (k, h)) e l a =
        let p = All-last (λ entry. P entry.1) k h e.handlers l a in
        All-adjust_last (λ (entry : Text × Handler). P entry.1) (connect_open req env h).0
          e.handlers (λ j. connect_open-kept h p) a

    create-kept :
        (info : SwitchInfo) (e : Engine)
        → EveryHandler e
        → EveryHandler (create_switch_handler info e)
    unfolding create_switch_handler
    create-kept info e a =
        All-insert (λ entry. P entry.1) info.oid (new_handler info) e.handlers (new info) a

    with_handler-kept :
        (info : SwitchInfo) (o : Option Handler) (e : Engine)
        → find req.switch_id e.handlers ≡ o
        → EveryHandler e
        → EveryHandler (with_handler req env info o e).0
    unfolding with_handler
    with_handler-kept info none e found a = ground (
      arith,
      use_last-kept (last (create_switch_handler info e).handlers) (create_switch_handler info e)
          refl (create-kept info e a),
      a,
    )
    with_handler-kept info (some h) e found a =
        let p = All-find (λ entry. P entry.1) req.switch_id h e.handlers found a in
        All-adjust (λ (entry : Text × Handler). P entry.1) req.switch_id (open_on req env h).0
          e.handlers (open_on-kept h p) a

  -- A message for a door of the configuration must be a fair request.
  pub recv-kept :
      (json : Json) (cfg : SvrCfg) (env : Surroundings) (message : Text) (e : Engine)
      → IsTable cfg.map_oid_switch_info
      → ((req : OpenDoorRequest) (info : SwitchInfo) (c : ℕ)
          → Asks json cfg message req info c
          → Fair (opens (i16 req.channel) req.close_after env.now))
      → EveryHandler e
      → EveryHandler (on_recv_mqtt_message json cfg env message e).0
  recv-kept json cfg env message e t fair a = elim (change_needs_request json cfg env message e) [
    | inl same ↦ subst EveryHandler (sym same) a
    | inr (req, info, reads, found, l, u) ↦
        let (c, asks) = request-Asks json cfg message req info t reads found l u in
        subst (λ (r : Engine × Reply). EveryHandler r.0)
          (sym (recv-with_handler json cfg env message req info c asks e))
          (with_handler-kept env req (fair req info c asks) info (find req.switch_id e.handlers) e
            refl a)
  ]
