-- ===== src/Handler/Kept.antt =====
-- What no operation of a handler changes: its switch, and the order of its doors.
use door_switch_svr.Prelude.{ℕ, ◌≡◌, refl, sym, subst, Option, none, some, arith, Bool}
use door_switch_svr.Prelude.Int.{ℤ, u16}
use door_switch_svr.OrderedMap.{key_ℕ, find, last, adjust}
use door_switch_svr.OrderedMap.Laws.{IsSorted, insert-IsSorted, adjust-IsSorted, adjust_last-adjust}
use door_switch_svr.Param.{SwitchInfo}
use door_switch_svr.Controller.{Controller, new_controller, init, add_task, start}
use door_switch_svr.Controller.Run.{Notification}
use door_switch_svr.Handler.{
  Handler, new_handler, connect, open_door, open_found, open_last, timer_called, timer_returned,
  handle_rw_error, report,
}
use door_switch_svr.Handler.Event.{IsKeptBy}
use door_switch_svr.Handler.Doors.{task_of}

-- The handler is for this switch, and its map of doors is a sorted one.
pub record IsFor (info : SwitchInfo) (h : Handler) : Type 0 where
  pub switch : h.switch_info ≡ info
  pub sorted : IsSorted h.controllers

pub new_handler-IsFor : (info : SwitchInfo) → IsFor info (new_handler info)
unfolding new_handler
new_handler-IsFor info = record { switch = refl; sorted = tt }

pub connect-IsFor :
    (error : Bool) (info : SwitchInfo) (h : Handler) → IsFor info h → IsFor info (connect error h).0
unfolding connect
connect-IsFor error info h i = ground arith

open_last-IsFor :
    (k : ℕ) (task : Notification) (o : Option (ℕ × Controller)) (info : SwitchInfo) (h : Handler)
    → last h.controllers ≡ o
    → IsFor info h
    → IsFor info (open_last k task o h).0
unfolding open_last init
open_last-IsFor k task none info h e i = i
open_last-IsFor k task (some (j, c)) info h e i =
    let c' = add_task task (start (init k c).0) in
    record {
      switch = i.switch;
      sorted =
          subst IsSorted (sym (adjust_last-adjust j c (λ _. c') h.controllers i.sorted e))
            (adjust-IsSorted j (λ _. c') h.controllers i.sorted);
    }

open_found-IsFor :
    (k : ℕ) (task : Notification) (o : Option Controller) (info : SwitchInfo) (h : Handler)
    → IsFor info h
    → IsFor info (open_found k task o h).0
unfolding open_found
open_found-IsFor k task none info h i =
    open_last-IsFor k task _ info _ refl (record {
      switch = i.switch;
      sorted = insert-IsSorted k new_controller h.controllers i.sorted;
    })
open_found-IsFor k task (some c) info h i = record {
  switch = i.switch;
  sorted = adjust-IsSorted k (add_task task) h.controllers i.sorted;
}

pub open_door-IsFor :
    (channel close_after : ℤ) (now : ℕ) (info : SwitchInfo) (h : Handler)
    → IsFor info h
    → IsFor info (open_door channel close_after now h).0
unfolding open_door
open_door-IsFor channel close_after now info h i = ground (
  arith,
  open_found-IsFor (u16 channel) (task_of close_after now) (find (u16 channel) h.controllers) info h
      i,
)

handle_rw_error-IsFor :
    (info : SwitchInfo) (h : Handler) → IsFor info h → IsFor info (handle_rw_error h)
unfolding handle_rw_error
handle_rw_error-IsFor info h i = ground arith

report-IsFor :
    (channel : ℕ) (r : Controller × Bool) (info : SwitchInfo) (h : Handler)
    → IsFor info h
    → IsFor info (report channel r h)
unfolding report
report-IsFor channel (c, raised) info h i =
    let h' : Handler = record h { controllers = adjust channel (λ _. c) h.controllers } in
    let i' : IsFor info h' = record {
      switch = i.switch;
      sorted = adjust-IsSorted channel (λ _. c) h.controllers i.sorted;
    } in
    ground (arith, i', handle_rw_error-IsFor info h' i')

timer_called-IsFor :
    (error : Bool) (info : SwitchInfo) (h : Handler)
    → IsFor info h
    → IsFor info (timer_called error h)
unfolding timer_called
timer_called-IsFor error info h i = ground arith

timer_returned-IsFor :
    (info : SwitchInfo) (h : Handler) → IsFor info h → IsFor info (timer_returned h)
unfolding timer_returned
timer_returned-IsFor info h i = ground arith

pub own-IsFor : (info : SwitchInfo) → IsKeptBy (λ _. Unit {0}) (IsFor info)
own-IsFor info = record {
  fires = λ error h runs idle i. timer_called-IsFor error info h i;
  returns = timer_returned-IsFor info;
  connects = λ error h f i. connect-IsFor error info h i;
  opens = λ channel close_after now h f i. open_door-IsFor channel close_after now info h i;
  reports = λ channel c r h found did i. report-IsFor channel r info h i;
}
