-- ===== src/Engine/Dispatch.antt =====
-- A message for a switch that has no handler yet.
use Prim.Native.Nat.{Ordering}
use door_switch_svr.Prelude.{ℕ, ◌≡◌, sym, ◌∙◌, ◌≢◌, true, false, none, some, ap}
use door_switch_svr.Prelude.Int.{pos, i16}
use door_switch_svr.OrderedMap.{cmp, key_ℕ, key_text, find, last}
use door_switch_svr.OrderedMap.Laws.{
  IsSorted, Below, last-insert_greatest, last-insert_lt, find-adjust_self, find-adjust_ne,
  find-insert_self, find-insert_ne, insert-IsSorted, find-last, lt-ne,
}
use door_switch_svr.Param.{Text, SwitchInfo, SvrCfg}
use door_switch_svr.Poco.{Json}
use door_switch_svr.Handler.{Handler, new_handler, connect, open_door}
use door_switch_svr.Handler.Doors.{task_of}
use door_switch_svr.Engine.{
  OpenDoorRequest, Engine, opened, not_connected, Surroundings, connect_open, on_recv_mqtt_message,
}
use door_switch_svr.Engine.Request.{Asks}
use door_switch_svr.Engine.Created.{
  IsOpening, IsRetrying, created, recv-use_last, new_connected, new_refused, connect_open_reached,
  first_entry,
}

module _ (json : Json) (cfg : SvrCfg) (env : Surroundings) (message : Text) (req : OpenDoorRequest)
    (info : SwitchInfo) (c : ℕ) (asks : Asks json cfg message req info c) (e : Engine) where
  first_switch :
      (other : Text)
      → env.is_address info.ip ≡ true
      → IsSorted e.handlers
      → find info.oid e.handlers ≡ none
      → Below info.oid e.handlers
      → info.oid ≢ other
      → let (e', reply) = on_recv_mqtt_message json cfg env message e in
        let (h, answer) = connect_open req env (new_handler info) in
        (find info.oid e'.handlers ≡ some h)
        × (reply ≡ answer)
        × (find other e'.handlers ≡ find other e.handlers)
  first_switch other address sorted absent below ne =
      let h = new_handler info in
      let h' = (connect_open req env h).0 in
      let l = last-insert_greatest info.oid h e.handlers below in
      let (handlers, _) =
        recv-use_last json cfg env message req info c asks e info.oid h address sorted absent l in
      let (entry, replied) =
        first_entry json cfg env message req info c asks e address sorted absent below in
      (
        entry,
        replied,
        rw handlers (
            find-adjust_ne info.oid other (λ _. h') (created json cfg env message req info c asks e)
              ne
            ∙ find-insert_ne info.oid other h e.handlers ne),
      )

  -- If a message asks for a channel that its switch has in the configuration (`Asks`), the
  -- handlers are sorted, the switch has none and its id is above all ids with one, its ip is an
  -- address, and the connect succeeds, then a connected handler is made for it, in which the door
  -- asked for has a started controller with the task; the answer is success, and the handler of
  -- any other switch is what it was.
  pub first_greatest_switch :
      (other : Text)
      → env.is_address info.ip ≡ true
      → env.connect_error ≡ false
      → IsSorted e.handlers
      → find info.oid e.handlers ≡ none
      → Below info.oid e.handlers
      → info.oid ≢ other
      → let (e', reply) = on_recv_mqtt_message json cfg env message e in
        (reply ≡ opened)
        × ((h : Handler) × (find info.oid e'.handlers ≡ some h)
            × IsOpening c (task_of req.close_after env.now) h)
        × (find other e'.handlers ≡ find other e.handlers)
  first_greatest_switch other address reached sorted absent below ne =
      let (entry, replied, others) = first_switch other address sorted absent below ne in
      let (opening, answer) = new_connected json cfg env message req info c asks e reached in
      (replied ∙ answer, ((connect_open req env (new_handler info)).0, entry, opening), others)

  -- If a message asks for a channel that its switch has in the configuration (`Asks`), the
  -- handlers are sorted, the switch has none and its id is above all ids with one, its ip is an
  -- address, and the connect fails, then a handler is made for it that is not connected, has no
  -- door, and whose reconnect timer runs; the answer is that the switch is not connected, and the
  -- handler of any other switch is what it was.
  pub first_unreachable_switch :
      (other : Text)
      → env.is_address info.ip ≡ true
      → env.connect_error ≡ true
      → IsSorted e.handlers
      → find info.oid e.handlers ≡ none
      → Below info.oid e.handlers
      → info.oid ≢ other
      → let (e', reply) = on_recv_mqtt_message json cfg env message e in
        (reply ≡ not_connected)
        × ((h : Handler) × (find info.oid e'.handlers ≡ some h) × IsRetrying h)
        × (find other e'.handlers ≡ find other e.handlers)
  first_unreachable_switch other address error sorted absent below ne =
      let (entry, replied, others) = first_switch other address sorted absent below ne in
      let (retrying, answer) = new_refused json cfg env message req info c asks e error in
      (replied ∙ answer, ((connect_open req env (new_handler info)).0, entry, retrying), others)

  -- The code opens a door of the wrong switch. If a message asks for a channel that its switch has
  -- in the configuration (`Asks`), the handlers are sorted, the switch has none and its id is
  -- below the greatest id with one, j, its ip is an address, and the connect succeeds, then the
  -- handler made for the switch stays as it was made, with no connect called; the connect and the
  -- opening of the door of that number happen on the handler of j; and the answer is success.
  pub first_lower_switch :
      (j : Text) (w : Handler)
      → env.is_address info.ip ≡ true
      → env.connect_error ≡ false
      → IsSorted e.handlers
      → find info.oid e.handlers ≡ none
      → last e.handlers ≡ some (j, w)
      → cmp info.oid j ≡ Ordering.lt
      → let (e', reply) = on_recv_mqtt_message json cfg env message e in
        (reply ≡ opened)
        × (find info.oid e'.handlers ≡ some (new_handler info))
        × (find j e'.handlers
            ≡ some (open_door (i16 (pos c)) req.close_after env.now (connect false w).0).0)
  first_lower_switch j w address reached sorted absent l lower =
      let h = new_handler info in
      let l' = last-insert_lt info.oid j h w e.handlers sorted l lower in
      let (handlers, replied) =
        recv-use_last json cfg env message req info c asks e j w address sorted absent l' in
      let w' = (connect_open req env w).0 in
      let (door, answer) = connect_open_reached json cfg env message req info c asks e w reached in
      rw (handlers, replied)
        (
          answer,
          find-adjust_ne j info.oid (λ _. w') (created json cfg env message req info c asks e)
                (λ q. lt-ne info.oid j lower (sym q))
              ∙ find-insert_self info.oid h e.handlers absent,
          find-adjust_self j (λ _. w') (created json cfg env message req info c asks e) w
                (find-last j w (created json cfg env message req info c asks e)
                  (insert-IsSorted info.oid h e.handlers sorted) l')
              ∙ ap some door,
        )
