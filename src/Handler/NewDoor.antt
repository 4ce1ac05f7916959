-- ===== src/Handler/NewDoor.antt =====
-- `openDoor` for a channel that has no controller yet, and the controller that it sets up then.
use door_switch_svr.Prelude.{
  ℕ, ◌<◌, [], ◌∷◌, ◌++◌, ◌≡◌, refl, ◌∙◌, ◌≢◌, true, false, none, some, arith,
}
use door_switch_svr.Prelude.Int.{ℤ, u16}
use door_switch_svr.OrderedMap.{key_ℕ, find, insert, adjust, last}
use door_switch_svr.OrderedMap.Laws.{
  IsSorted, Below, last-insert_greatest, last-insert_lt, adjust_last-adjust, find-adjust_self,
  find-adjust_ne, find-insert_self, find-insert_ne, insert-IsSorted, find-last,
}
use door_switch_svr.Param.{err_ok}
use door_switch_svr.Controller.{Controller, new_controller, init, start, add_task}
use door_switch_svr.Controller.Watchdog.{never, rearm}
use door_switch_svr.Controller.Run.{Notification, Worker, at_top}
use door_switch_svr.Handler.{Handler, open_door, open_found, open_last}
use door_switch_svr.Handler.Doors.{task_of, open_door_result}

set_up : ℕ → Notification → Controller → Controller
set_up k task c = add_task task (start (init k c).0)

open_last-adjust :
    (k : ℕ) (task : Notification) (j : ℕ) (c : Controller) (h : Handler)
    → IsSorted h.controllers
    → last h.controllers ≡ some (j, c)
    → (open_last k task (some (j, c)) h).0.controllers
      ≡ adjust j (λ _. set_up k task c) h.controllers
unfolding open_last set_up init
open_last-adjust k task j c h s l = adjust_last-adjust j c _ h.controllers s l

-- Which entry is written.
open_new :
    (channel close_after_ms : ℤ) (now j : ℕ) (c : Controller) (h : Handler)
    → let m = insert (u16 channel) new_controller h.controllers in
      h.connected ≡ true
      → IsSorted h.controllers
      → find (u16 channel) h.controllers ≡ none
      → last m ≡ some (j, c)
      → (open_door channel close_after_ms now h).0.controllers
        ≡ adjust j (λ _. set_up (u16 channel) (task_of close_after_ms now) c) m
unfolding open_door init
open_new channel close_after_ms now j c h conn s absent l =
    let k = u16 channel in
    let task = task_of close_after_ms now in
    let h' = record h { controllers = insert k new_controller h.controllers } in
    rw (conn, absent, open_found, l)
      (open_last-adjust k task j c h' (insert-IsSorted k new_controller h.controllers s) l)

abbrev pub ready_worker : Notification → Worker
ready_worker task = record { tasks = task ∷ []; stop = false; noti_in_q = false; pc = at_top }

abbrev pub IsReady : ℕ → Notification → Controller → Type 0
IsReady k task c = (c.channel ≡ k) × (c.has_callback ≡ true) × (c.worker ≡ ready_worker task)

-- On a connected switch with its doors sorted, the first request for a channel above all channels
-- with a controller sets up a controller for it, with its thread started and the task in its
-- queue, and leaves every other door as it was.
pub open_greatest_door :
    (channel close_after_ms : ℤ) (now i : ℕ) (h : Handler)
    → h.connected ≡ true
    → IsSorted h.controllers
    → find (u16 channel) h.controllers ≡ none
    → Below (u16 channel) h.controllers
    → u16 channel ≢ i
    → let h' = (open_door channel close_after_ms now h).0 in
      ((c : Controller) × (find (u16 channel) h'.controllers ≡ some c)
        × IsReady (u16 channel) (task_of close_after_ms now) c)
      × (find i h'.controllers ≡ find i h.controllers)
unfolding set_up init start add_task new_controller
open_greatest_door channel close_after_ms now i h conn s absent below ne =
    let k = u16 channel in
    let l = last-insert_greatest k new_controller h.controllers below in
    let e = open_new channel close_after_ms now k new_controller h conn s absent l in
    let c = set_up k (task_of close_after_ms now) new_controller in
    let m = insert k new_controller h.controllers in
    rw e (
      (
        c,
        find-adjust_self k (λ _. c) m new_controller
            (find-insert_self k new_controller h.controllers absent),
        (refl, refl, refl),
      ),
      find-adjust_ne k i (λ _. c) m ne ∙ find-insert_ne k i new_controller h.controllers ne,
    )

-- The code sets up the controller of another door: on a connected switch with its doors sorted,
-- the first request for a channel below the greatest one with a controller, j, gives the channel a
-- controller that is not set up, has no task and whose thread is not started, and makes the
-- controller of j one for the requested channel, with the task behind the tasks of j in its queue,
-- and whose deadline for the reply to a command is off, even if it waited for one. The answer is
-- success.
pub open_lower_door :
    (channel close_after_ms : ℤ) (now j : ℕ) (w : Controller) (h : Handler)
    → h.connected ≡ true
    → IsSorted h.controllers
    → find (u16 channel) h.controllers ≡ none
    → last h.controllers ≡ some (j, w)
    → u16 channel < j
    → let (h', result) = open_door channel close_after_ms now h in
      (result ≡ err_ok)
      × (find (u16 channel) h'.controllers ≡ some new_controller)
      × ((c : Controller) × (find j h'.controllers ≡ some c)
          × (c.channel ≡ u16 channel)
          × (c.worker.tasks ≡ w.worker.tasks ++ (task_of close_after_ms now ∷ []))
          × (c.watch.deadline ≡ never))
unfolding set_up init start add_task rearm
open_lower_door channel close_after_ms now j w h conn s absent l lower =
    let k = u16 channel in
    let m = insert k new_controller h.controllers in
    let l' = last-insert_lt k j new_controller w h.controllers s l (ground arith) in
    let e = open_new channel close_after_ms now j w h conn s absent l' in
    let c = set_up k (task_of close_after_ms now) w in
    let j_entry = find-last j w m (insert-IsSorted k new_controller h.controllers s) l' in
    let result : (open_door channel close_after_ms now h).1 ≡ err_ok =
      (open_door_result channel close_after_ms now h).0 ∙ rw conn in
    (
      result,
      rw e (
          find-adjust_ne j k (λ _. c) m (λ q. absurd (omega arith))
          ∙ find-insert_self k new_controller h.controllers absent),
      rw e (c, find-adjust_self j (λ _. c) m w j_entry, refl, ground arith, refl),
    )
