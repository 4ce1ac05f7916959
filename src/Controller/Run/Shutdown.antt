-- ===== src/Controller/Run/Shutdown.antt =====
-- `close()` from another thread: where it ends the door's thread, and where it does not.
use door_switch_svr.Prelude.{ℕ, List, [], ◌∷◌, ◌≡◌, Bool, true, false, ◌&&◌, arith}
use door_switch_svr.Param.{SwitchType}
use door_switch_svr.Controller.Run.{Pc, before_wait, blocked, finished, is_running}
use door_switch_svr.Controller.Run.Schedule.{
  turns, closes, System, step, run, is_sleeping, turns_at,
}

abbrev pub is_before_wait : Pc → Bool
is_before_wait before_wait = true
is_before_wait _ = false

-- A shutdown that finds the thread running, but not between its test of m_stop and its wait, ends it
-- within two turns, and a sleeping thread closes its door on the way.
pub close_ends_thread :
    (type : SwitchType) (s : System) (t u : ℕ)
    → is_running s.worker.pc ≡ true
    → is_before_wait s.worker.pc ≡ false
    → let s' = run type (closes ∷ turns t ∷ turns u ∷ []) s in
      (s'.worker.pc ≡ finished) × (is_sleeping s.worker.pc && s'.door ≡ false)
unfolding run step
close_ends_thread type s t u r b = ground arith

record IsStuck (s : System) : Type 0 where
  in_wait : s.worker.pc ≡ blocked
  no_task : s.worker.tasks ≡ []

step-IsStuck :
    (type : SwitchType) (t : ℕ) (s : System) → IsStuck s → IsStuck (step type (turns t) s)
unfolding step
step-IsStuck type t s h = ground arith

run-IsStuck :
    (type : SwitchType) (ts : List ℕ) (s : System) → IsStuck s → IsStuck (run type (turns_at ts) s)
unfolding run
run-IsStuck type [] s h = h
run-IsStuck type (t ∷ ts) s h =
    run-IsStuck type ts (step type (turns t) s) (step-IsStuck type t s h)

-- A shutdown between the thread's test of m_stop and its wait is lost: the thread blocks and stays
-- blocked, whatever turns it gets, so the join of `close()` does not return.
pub close_lost :
    (type : SwitchType) (s : System) (t : ℕ) (ts : List ℕ)
    → s.worker.pc ≡ before_wait
    → (run type (closes ∷ turns t ∷ turns_at ts) s).worker.pc ≡ blocked
unfolding run
close_lost type s t ts p = (run-IsStuck type ts _ (first type s t p)).in_wait
  where
    first :
        (type : SwitchType) (s : System) (t : ℕ)
        → s.worker.pc ≡ before_wait
        → IsStuck (step type (turns t) (step type closes s))
    first type s t p = unfold step in ground arith
