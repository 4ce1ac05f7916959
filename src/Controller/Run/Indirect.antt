-- ===== src/Controller/Run/Indirect.antt =====
-- The thread of an indirect relay (src/DoorSwitchChannelController.cpp, run): what it asked for last.
use door_switch_svr.Prelude.{List, [], ◌∷◌, ◌≡◌, refl, Bool, true, false, arith}
use door_switch_svr.Param.{indirect_control_switch}
use door_switch_svr.Controller.Run.{Pc, sleeping_direct}
use door_switch_svr.Controller.Run.Schedule.{
  Event, turns, adds, closes, System, step, run, is_sleeping, started,
}

abbrev is_sleeping_direct : Pc → Bool
is_sleeping_direct (sleeping_direct wait) = true
is_sleeping_direct _ = false

record Inv (s : System) : Type 0 where
  open_asleep : s.door ≡ is_sleeping s.worker.pc
  indirect : is_sleeping_direct s.worker.pc ≡ false

step-Inv : (e : Event) (s : System) → Inv s → Inv (step indirect_control_switch e s)
unfolding step
step-Inv (turns now) s h = ground arith
step-Inv (adds n) s h = ground arith
step-Inv closes s h = ground arith

run-Inv : (es : List Event) (s : System) → Inv s → Inv (run indirect_control_switch es s)
unfolding run
run-Inv [] s h = h
run-Inv (e ∷ es) s h = run-Inv es (step indirect_control_switch e s) (step-Inv e s h)

started-Inv : Inv started
unfolding started
started-Inv = record { open_asleep = refl; indirect = refl }

-- For an indirect relay, in any order of turns, new tasks and shutdown, whether tasks expire or not,
-- the last command that the thread has asked to be written is to open exactly while the thread
-- sleeps; at all other times it is to close, or there is none. What becomes of the writes is not part
-- of this.
pub indirect_open_asleep :
    (es : List Event)
    → let s = run indirect_control_switch es started in s.door ≡ is_sleeping s.worker.pc
indirect_open_asleep es = (run-Inv es started started-Inv).open_asleep
