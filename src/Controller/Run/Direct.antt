-- ===== src/Controller/Run/Direct.antt =====
-- The thread of a direct relay, which keeps the relay open from one task to the next.
use door_switch_svr.Prelude.{
  ℕ, List, [], ◌∷◌, ◌≡◌, Bool, true, false, ◌||◌, ◌&&◌, not, arith, is_empty,
}
use door_switch_svr.Prelude.Int.{pos, leb_ℤ}
use door_switch_svr.Param.{SwitchType, indirect_control_switch}
use door_switch_svr.Controller.Run.{
  Notification, Pc, not_started, before_wait, blocked, woken, finished, real_wait,
}
use door_switch_svr.Controller.Run.Schedule.{
  Event, turns, adds, closes, System, step, run, is_sleeping, started,
}

abbrev pub is_indirect : SwitchType → Bool
is_indirect indirect_control_switch = true
is_indirect _ = false

-- Whether a turn at this time finds that the first task of the queue has waited too long.
abbrev pub first_expired : ℕ → List Notification → Bool
first_expired now [] = false
first_expired now (n ∷ rest) = leb_ℤ (real_wait now n) (pos 0)

abbrev pub takes_task : Pc → Bool
takes_task before_wait = true
takes_task blocked = true
takes_task _ = false

-- No task expires in the queue; none comes after the shutdown; the shutdown does not fall between the
-- end of a sleep and the next task.
abbrev pub IsCalm : Event → System → Type 0
IsCalm (turns now) s = takes_task s.worker.pc && first_expired now s.worker.tasks ≡ false
IsCalm (adds n) s = s.worker.stop ≡ false
IsCalm closes s = is_sleeping s.worker.pc || not s.worker.noti_in_q ≡ true

abbrev pub AllCalm : SwitchType → List Event → System → Type 0
AllCalm type [] s = Unit {0}
AllCalm type (e ∷ es) s = IsCalm e s × AllCalm type es (step type e s)

abbrev pub is_resting : Pc → Bool
is_resting not_started = true
is_resting blocked = true
is_resting woken = true
is_resting finished = true
is_resting _ = false

pub record Inv (s : System) : Type 0 where
  pub open_asleep : is_sleeping s.worker.pc ≡ true → s.door ≡ true
  pub open_queued : is_sleeping s.worker.pc ≡ false → s.door ≡ s.worker.noti_in_q
  pub queued :
      is_sleeping s.worker.pc ≡ false → s.worker.noti_in_q ≡ true → is_empty s.worker.tasks ≡ false
  pub resting : is_resting s.worker.pc ≡ true → s.worker.noti_in_q ≡ false
  pub stopped : s.worker.stop ≡ true → is_empty s.worker.tasks ≡ true

module _ (type : SwitchType) (direct : is_indirect type ≡ false) where
  step-Inv : (e : Event) (s : System) → IsCalm e s → Inv s → Inv (step type e s)
  unfolding step
  step-Inv (turns now) s c h = ground arith
  step-Inv (adds n) s c h = ground arith
  step-Inv closes s c h = ground arith

  run-Inv : (es : List Event) (s : System) → AllCalm type es s → Inv s → Inv (run type es s)
  unfolding run
  run-Inv [] s c h = h
  run-Inv (e ∷ es) s c h = run-Inv es (step type e s) c.1 (step-Inv e s c.0 h)

  started-Inv : Inv started
  unfolding started
  started-Inv = ground arith

  -- On a direct relay, and in any order of turns, new tasks and shutdown in which no task expires
  -- in the queue, none comes after the shutdown, and the shutdown does not fall between the end of
  -- a sleep and the next task: the last command that the thread has asked to be written is to open
  -- while the thread sleeps or goes from one task to a waiting one, and at no other time; it is to
  -- close, or there is none, before the thread starts, while it is blocked on the empty queue, and
  -- after it has ended. What becomes of the writes is not part of this.
  pub direct_open_asleep :
      (es : List Event)
      → AllCalm type es started
      → let s = run type es started in
        (s.door ≡ is_sleeping s.worker.pc || (s.worker.noti_in_q && not (is_empty s.worker.tasks)))
        × (is_resting s.worker.pc && s.door ≡ false)
  direct_open_asleep es c = ground (arith, run-Inv es started c started-Inv)
