-- ===== src/Handler/Doors.antt =====
-- `openDoor` and the map of the doors' controllers.
use door_switch_svr.Prelude.{ℕ, ◌≡◌, refl, ◌≢◌, ◌⊎◌, true, Option, none, some, arith, if◌then◌else◌}
use door_switch_svr.Prelude.Int.{ℤ, u16}
use door_switch_svr.OrderedMap.{key_ℕ, find}
use door_switch_svr.OrderedMap.Laws.{last-insert-ne-none, find-adjust_self, find-adjust_ne}
use door_switch_svr.Param.{err_ok, err_switch_not_conn}
use door_switch_svr.Controller.{Controller, new_controller, init, add_task}
use door_switch_svr.Controller.Run.{Notification}
use door_switch_svr.Handler.{Handler, open_door, open_found, open_last}

abbrev pub task_of : ℤ → ℕ → Notification
task_of close_after_ms now = record { close_after_ms = close_after_ms; started = now }

open_last-ok :
    (channel : ℕ) (task : Notification) (o : Option (ℕ × Controller)) (h : Handler)
    → o ≢ none
    → (open_last channel task o h).1 ≡ err_ok
unfolding open_last init
open_last-ok channel task none h n = absurd (n refl)
open_last-ok channel task (some (key, c)) h n = refl

open_found-ok :
    (channel : ℕ) (task : Notification) (o : Option Controller) (h : Handler)
    → (open_found channel task o h).1 ≡ err_ok
unfolding open_found
open_found-ok channel task none h =
    open_last-ok channel task _ _ (last-insert-ne-none channel new_controller h.controllers)
open_found-ok channel task (some c) h = refl

-- A request is refused, with nothing changed, exactly while the switch is not connected; the error
-- for a controller that cannot be set up is never returned.
pub open_door_result :
    (channel close_after_ms : ℤ) (now : ℕ) (h : Handler)
    → ((open_door channel close_after_ms now h).1
        ≡ (if h.connected then err_ok else err_switch_not_conn))
      × ((h.connected ≡ true) ⊎ ((open_door channel close_after_ms now h).0 ≡ h))
unfolding open_door
open_door_result channel close_after_ms now h = ground (
  arith,
  open_found-ok (u16 channel) (task_of close_after_ms now) (find (u16 channel) h.controllers) h,
)

-- On a connected switch, a request for a door that has a controller adds its task behind those of
-- that door, and leaves every other door as it was.
pub open_known_door :
    (channel close_after_ms : ℤ) (now j : ℕ) (h : Handler) (c : Controller)
    → h.connected ≡ true
    → find (u16 channel) h.controllers ≡ some c
    → u16 channel ≢ j
    → let h' = (open_door channel close_after_ms now h).0 in
      (find (u16 channel) h'.controllers ≡ some (add_task (task_of close_after_ms now) c))
      × (find j h'.controllers ≡ find j h.controllers)
unfolding open_door open_found
open_known_door channel close_after_ms now j h c conn known ne =
    let k = u16 channel in
    let f = add_task (task_of close_after_ms now) in
    rw (conn, known, open_found)
      (find-adjust_self k f h.controllers c known, find-adjust_ne k j f h.controllers ne)

pub open_known-found :
    (channel close_after_ms : ℤ) (now : ℕ) (h : Handler) (c : Controller)
    → h.connected ≡ true
    → find (u16 channel) h.controllers ≡ some c
    → let h' = (open_door channel close_after_ms now h).0 in
      (find (u16 channel) h'.controllers ≡ some (add_task (task_of close_after_ms now) c))
      × (h'.switch_info ≡ h.switch_info)
unfolding open_door open_found
open_known-found channel close_after_ms now h c conn known =
    let f = add_task (task_of close_after_ms now) in
    rw (conn, known, open_found) (find-adjust_self (u16 channel) f h.controllers c known, refl)

-- A request changes neither the connection nor the timer.
pub connected-open_door :
    (channel close_after_ms : ℤ) (now : ℕ) (h : Handler)
    → (open_door channel close_after_ms now h).0.connected ≡ h.connected
unfolding open_door open_found open_last
connected-open_door channel close_after_ms now h = ground arith
