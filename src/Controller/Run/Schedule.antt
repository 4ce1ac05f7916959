-- ===== src/Controller/Run/Schedule.antt =====
-- The thread of a door among the others: any order of its turns, new tasks and the shutdown, with the
-- last command that the thread asked for (`door` is `true` if it was to open). The results of the
-- writes are not part of this.
use door_switch_svr.Prelude.{ℕ, List, [], ◌∷◌, Bool, true, false, Option, none, some}
use door_switch_svr.Param.{SwitchType}
use door_switch_svr.Controller.Run.{
  Notification, Pc, Worker, sleeping_indirect, sleeping_direct, Request, opening, closing, turn,
  add_task, start, close, new_worker,
}

pub data Event : Type 0 where
  turns : ℕ → Event
  adds : Notification → Event
  closes : Event

abbrev pub move : Option Request → Bool → Bool
move none door = door
move (some opening) door = true
move (some closing) door = false

pub record System : Type 0 where
  pub worker : Worker
  pub door : Bool

turn_system : SwitchType → ℕ → System → System
turn_system type now s =
    let (w, request) = turn type now s.worker in record { worker = w; door = move request s.door }

unfoldable pub step : SwitchType → Event → System → System
unfolding turn_system turn add_task close
step type (turns now) s = turn_system type now s
step type (adds n) s = record s { worker = add_task n s.worker }
step type closes s = record s { worker = close s.worker }

unfoldable pub run : SwitchType → List Event → System → System
run type [] s = s
run type (e ∷ es) s = run type es (step type e s)

abbrev pub is_sleeping : Pc → Bool
is_sleeping (sleeping_indirect wait) = true
is_sleeping (sleeping_direct wait) = true
is_sleeping _ = false

-- Turns alone, at the times of a list.
abbrev pub turns_at : List ℕ → List Event
turns_at [] = []
turns_at (t ∷ ts) = turns t ∷ turns_at ts

-- A fresh thread, which has asked for nothing.
unfoldable pub started : System
unfolding start
started = record { worker = start new_worker; door = false }
