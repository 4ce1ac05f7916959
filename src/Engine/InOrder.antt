-- ===== src/Engine/InOrder.antt =====
-- The handling of a message against what it means to do: make the handler of a new switch, connect it, open
-- the door, and store it under its own id. The code agrees while new switches come in ascending order of
-- their ids.
use door_switch_svr.Prelude.{
  ℕ, ◌≡◌, refl, sym, ◌∙◌, ap, subst, ◌⊎◌, inl, inr, ◌≢◌, Option, none, some, arith, All,
  if◌then◌else◌,
}
use door_switch_svr.OrderedMap.{key_text, find, insert, adjust, last}
use door_switch_svr.OrderedMap.Laws.{
  IsSorted, Below, last-insert_greatest, adjust_last-adjust, insert-IsSorted, adjust-insert,
}
use door_switch_svr.OrderedMap.Every.{All-find, All-insert, All-adjust}
use door_switch_svr.Param.{Text, SwitchInfo, SvrCfg}
use door_switch_svr.Poco.{Json}
use door_switch_svr.Handler.{Handler, new_handler}
use door_switch_svr.Engine.{
  OpenDoorRequest, Engine, Surroundings, Reply, address_thrown, connect_open, open_on, reply_of,
  use_last, create_switch_handler, with_handler, on_recv_mqtt_message,
}
use door_switch_svr.Engine.Request.{Asks, recv-with_handler}

abbrev pub meant_new : OpenDoorRequest → Surroundings → SwitchInfo → Engine → Engine × Reply
meant_new req env info e =
    let (h, reply) = connect_open req env (new_handler info) in
    (record e { handlers = insert info.oid h e.handlers }, reply)

abbrev pub meant_handler :
    OpenDoorRequest → Surroundings → SwitchInfo → Option Handler → Engine → Engine × Reply
meant_handler req env info none e =
    if env.is_address info.ip then meant_new req env info e else (e, address_thrown)
meant_handler req env info (some h) e =
    let (h', res) = open_on req env h in
    (record e { handlers = adjust req.switch_id (λ _. h') e.handlers }, reply_of res)

-- The switch has a handler, or its id is above all that have one.
abbrev pub IsNextSwitch : Text → Engine → Type 0
IsNextSwitch k e = (find k e.handlers ≢ none) ⊎ Below k e.handlers

module _ (req : OpenDoorRequest) (env : Surroundings) (info : SwitchInfo) (e : Engine)
    (own_id : info.oid ≡ req.switch_id) (sorted : IsSorted e.handlers) where
  new-meant :
      find info.oid e.handlers ≡ none
      → Below info.oid e.handlers
      → let e' = create_switch_handler info e in
        use_last req env (last e'.handlers) e' ≡ meant_new req env info e
  unfolding create_switch_handler use_last
  new-meant absent below =
      let h = new_handler info in
      let m = insert info.oid h e.handlers in
      let h' = (connect_open req env h).0 in
      let l = last-insert_greatest info.oid h e.handlers below in
      let written =
        adjust_last-adjust info.oid h (λ _. h') m (insert-IsSorted info.oid h e.handlers sorted) l
        ∙ adjust-insert info.oid h h' e.handlers absent in
      rw l (ap (λ hs. (record e { handlers = hs }, (connect_open req env h).1)) written)

  with_handler-meant :
      (o : Option Handler)
      → find req.switch_id e.handlers ≡ o
      → IsNextSwitch req.switch_id e
      → with_handler req env info o e ≡ meant_handler req env info o e
  unfolding with_handler
  with_handler-meant (some h) at n = refl
  with_handler-meant none at (inl known) = absurd (known at)
  with_handler-meant none at (inr below) =
      let made =
        new-meant (subst (λ k. find k e.handlers ≡ none) (sym own_id) at)
          (subst (λ k. Below k e.handlers) (sym own_id) below) in
      ap (λ r. if env.is_address info.ip then r else (e, address_thrown)) made

-- If a message asks for a channel that its switch has in the configuration (`Asks`), the handlers are
-- sorted, and the switch has a handler or its id is above all ids with one, then the code does
-- what it means to: it takes the request to the handler of the switch, which, if it is new, is
-- connected and stored under the id of the switch.
pub message_in_order :
    (json : Json) (cfg : SvrCfg) (env : Surroundings) (message : Text) (req : OpenDoorRequest)
    (info : SwitchInfo) (c : ℕ) (e : Engine)
    → Asks json cfg message req info c
    → IsSorted e.handlers
    → IsNextSwitch req.switch_id e
    → on_recv_mqtt_message json cfg env message e
      ≡ meant_handler req env info (find req.switch_id e.handlers) e
message_in_order json cfg env message req info c e asks sorted next =
    recv-with_handler json cfg env message req info c asks e
    ∙ with_handler-meant req env info e asks.own_id sorted (find req.switch_id e.handlers) refl next

-- What a request keeps of the entries of the handlers, each with its id.
module _ (P : Text × Handler → Type 0) (req : OpenDoorRequest) (env : Surroundings)
    (info : SwitchInfo) (new : P (info.oid, (connect_open req env (new_handler info)).0))
    (opens : (h : Handler) → P (req.switch_id, h) → P (req.switch_id, (open_on req env h).0)) where
  pub meant-All :
      (o : Option Handler) (e : Engine)
      → find req.switch_id e.handlers ≡ o
      → All P e.handlers
      → All P (meant_handler req env info o e).0.handlers
  meant-All none e at a =
      ground
        (arith, All-insert P info.oid (connect_open req env (new_handler info)).0 e.handlers new a)
  meant-All (some h) e at a =
      All-adjust P req.switch_id (open_on req env h).0 e.handlers
        (opens h (All-find P req.switch_id h e.handlers at a)) a
