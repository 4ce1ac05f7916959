-- ===== src/Engine/Created.antt =====
-- What a message does for a switch that has no handler yet: the handler that is made, and the one that
-- `crbegin()` names.
use door_switch_svr.Prelude.{ℕ, [], ◌+◌, ◌≡◌, refl, subst, true, false, none, some, arith, ap}
use door_switch_svr.Prelude.Int.{pos, i16, u16}
use door_switch_svr.OrderedMap.{Map, key_ℕ, key_text, find, insert, adjust, last}
use door_switch_svr.OrderedMap.Laws.{
  IsSorted, Below, last-insert_greatest, adjust_last-adjust, find-adjust_self, find-insert_self,
  insert-IsSorted,
}
use door_switch_svr.Param.{Text, SwitchInfo, SvrCfg}
use door_switch_svr.Poco.{Json}
use door_switch_svr.Controller.{Controller}
use door_switch_svr.Controller.Run.{Notification}
use door_switch_svr.Handler.{Handler, new_handler, connect, open_door}
use door_switch_svr.Handler.Doors.{task_of, open_door_result, connected-open_door}
use door_switch_svr.Handler.NewDoor.{IsReady, open_greatest_door}
use door_switch_svr.Handler.Timer.{timer_runs}
use door_switch_svr.Engine.{
  OpenDoorRequest, Engine, opened, not_connected, Surroundings, use_last, connect_open, open_on,
  reply_of, with_handler, create_switch_handler, on_recv_mqtt_message,
}
use door_switch_svr.Engine.Request.{Asks, recv-with_handler, narrowed}

-- A connected handler whose door `c` has a controller with this one task.
abbrev pub IsOpening : ℕ → Notification → Handler → Type 0
IsOpening c task h =
    (h.connected ≡ true) × ((k : Controller) × (find c h.controllers ≡ some k) × IsReady c task k)

-- A handler whose first connect failed: it has no door, and its reconnect timer runs.
abbrev pub IsRetrying : Handler → Type 0
IsRetrying h = (h.connected ≡ false) × (timer_runs h.calls ≡ true) × (h.controllers ≡ [])

module _ (json : Json) (cfg : SvrCfg) (env : Surroundings) (message : Text) (req : OpenDoorRequest)
    (info : SwitchInfo) (c : ℕ) (asks : Asks json cfg message req info c) (e : Engine) where
  -- The handlers with the new one, before `crbegin()` is used.
  abbrev pub created : Map Text Handler
  created = insert info.oid (new_handler info) e.handlers

  pub recv-use_last :
      (j : Text) (h : Handler)
      → env.is_address info.ip ≡ true
      → IsSorted e.handlers
      → find info.oid e.handlers ≡ none
      → last created ≡ some (j, h)
      → let (e', reply) = on_recv_mqtt_message json cfg env message e in
        (e'.handlers ≡ adjust j (λ _. (connect_open req env h).0) created)
        × (reply ≡ (connect_open req env h).1)
  unfolding with_handler use_last create_switch_handler
  recv-use_last j h address sorted absent l =
      let absent' : find req.switch_id e.handlers ≡ none =
        subst (λ k. find k e.handlers ≡ none) asks.own_id absent in
      rw
        (
          recv-with_handler json cfg env message req info c asks e,
          absent',
          with_handler,
          address,
          l,
          use_last,
        )
        (
          adjust_last-adjust j h _ created
              (insert-IsSorted info.oid (new_handler info) e.handlers sorted) l,
          refl,
        )

  pub new_connected :
      env.connect_error ≡ false
      → let (h, reply) = connect_open req env (new_handler info) in
        IsOpening c (task_of req.close_after env.now) h × (reply ≡ opened)
  unfolding connect_open connect new_handler open_on reply_of find
  new_connected reached =
      let h = (connect false (new_handler info)).0 in
      let channel = i16 req.channel in
      let same = narrowed json cfg env message req info c asks in
      let (k, at, ready) =
        (open_greatest_door channel req.close_after env.now (u16 channel + 1) h refl tt refl tt
          (λ q. absurd (omega arith))).0 in
      let (result, _) = open_door_result channel req.close_after env.now h in
      rw reached (
        (
          connected-open_door channel req.close_after env.now h,
          (
            k,
            subst
                (λ (i : ℕ).
                  find i (open_door channel req.close_after env.now h).0.controllers ≡ some k)
                same at,
            subst (λ (i : ℕ). IsReady i (task_of req.close_after env.now) k) same ready,
          ),
        ),
        ap reply_of result,
      )

  pub new_refused :
      env.connect_error ≡ true
      → let (h, reply) = connect_open req env (new_handler info) in
        IsRetrying h × (reply ≡ not_connected)
  unfolding connect_open connect new_handler
  new_refused error = ground arith

  pub connect_open_reached :
      (w : Handler)
      → env.connect_error ≡ false
      → let (w', reply) = connect_open req env w in
        (w' ≡ (open_door (i16 (pos c)) req.close_after env.now (connect false w).0).0)
        × (reply ≡ opened)
  unfolding connect_open open_on reply_of connect
  connect_open_reached w reached =
      let (result, _) =
        open_door_result (i16 (pos c)) req.close_after env.now (connect false w).0 in
      rw (reached, asks.asked) (refl, ap reply_of result)

  pub first_entry :
      env.is_address info.ip ≡ true
      → IsSorted e.handlers
      → find info.oid e.handlers ≡ none
      → Below info.oid e.handlers
      → let (e', reply) = on_recv_mqtt_message json cfg env message e in
        let (h, answer) = connect_open req env (new_handler info) in
        (find info.oid e'.handlers ≡ some h) × (reply ≡ answer)
  first_entry address sorted absent below =
      let h = new_handler info in
      let h' = (connect_open req env h).0 in
      let l = last-insert_greatest info.oid h e.handlers below in
      let (handlers, replied) = recv-use_last info.oid h address sorted absent l in
      rw (handlers, replied)
        (
          find-adjust_self info.oid (λ _. h') created h
              (find-insert_self info.oid h e.handlers absent),
          refl,
        )

  -- The door of a switch that has just been connected.
  pub first_opens :
      env.is_address info.ip ≡ true
      → env.connect_error ≡ false
      → IsSorted e.handlers
      → find info.oid e.handlers ≡ none
      → Below info.oid e.handlers
      → let (e', reply) = on_recv_mqtt_message json cfg env message e in
        (h : Handler) × (find info.oid e'.handlers ≡ some h)
        × IsOpening c (task_of req.close_after env.now) h
  first_opens address reached sorted absent below =
      let (entry, replied) = first_entry address sorted absent below in
      let (opening, answer) = new_connected reached in
      ((connect_open req env (new_handler info)).0, entry, opening)
