-- ===== src/Controller/Run/Order.antt =====
-- The tasks of one door (src/DoorSwitchChannelController.cpp, run): their order, how long the queue
-- lasts, and what becomes of a single one.
use door_switch_svr.Prelude.{
  append_assoc, append-nil, ℕ, ◌+◌, ◌*◌, ◌≤◌, ◌<◌, List, [], ◌∷◌, ◌++◌, ◌≡◌, sym, ◌∙◌, ap, ◌⊎◌, inl,
  inr, Bool, true, false, arith, length, All,
}
use door_switch_svr.Param.{SwitchType}
use door_switch_svr.Controller.Run.{
  Notification, Pc, at_top, before_wait, blocked, woken, sleeping_indirect, sleeping_direct,
  is_running, real_wait,
}
use door_switch_svr.Controller.Run.Schedule.{
  Event, turns, adds, closes, System, step, run, is_sleeping, started, turns_at,
}
use door_switch_svr.Controller.Run.Direct.{takes_task, first_expired}

-- The tasks that arrive.
abbrev pub added : List Event → List Notification
added [] = []
added (adds n ∷ es) = n ∷ added es
added (_ ∷ es) = added es

abbrev pub first : List Notification → List Notification
first [] = []
first (n ∷ rest) = n ∷ []

-- The task that an event takes out of the queue, if it takes one.
abbrev pub taken_by : Event → System → List Notification
taken_by (turns now) s = elim (takes_task s.worker.pc) [ true ↦ first s.worker.tasks | false ↦ [] ]
taken_by (adds n) s = []
taken_by closes s = []

abbrev pub taken : SwitchType → List Event → System → List Notification
taken type [] s = []
taken type (e ∷ es) s = taken_by e s ++ taken type es (step type e s)

abbrev pub IsNoShutdown : Event → Type 0
IsNoShutdown closes = ⊥
IsNoShutdown _ = Unit {0}

turn_takes :
    (type : SwitchType) (now : ℕ) (s : System)
    → s.worker.tasks ≡ taken_by (turns now) s ++ (step type (turns now) s).worker.tasks
unfolding step
turn_takes type now s = ground arith

-- From any state, in any order of turns and new tasks, the tasks that were waiting and those that
-- arrive are, in this order, the tasks that the thread takes and then those that still wait: none is
-- lost, doubled or overtaken.
pub tasks_in_order :
    (type : SwitchType) (es : List Event) (s : System)
    → All IsNoShutdown es
    → s.worker.tasks ++ added es ≡ taken type es s ++ (run type es s).worker.tasks
unfolding run step
tasks_in_order type [] s h = append-nil s.worker.tasks
tasks_in_order type (closes ∷ es) s h = absurd h.0
tasks_in_order type (adds n ∷ es) s h =
    sym (append_assoc s.worker.tasks (n ∷ []) (added es))
    ∙ tasks_in_order type es (step type (adds n) s) h.1
tasks_in_order type (turns now ∷ es) s h =
    let s' = step type (turns now) s in
    ap (λ q. q ++ added es) (turn_takes type now s)
    ∙ append_assoc (taken_by (turns now) s) s'.worker.tasks (added es)
    ∙ ap (λ q. taken_by (turns now) s ++ q) (tasks_in_order type es s' h.1)
    ∙ sym (append_assoc (taken_by (turns now) s) (taken type es s') (run type es s').worker.tasks)

abbrev pub is_woken : Pc → Bool
is_woken woken = true
is_woken _ = false

-- Turns to go for the place where the thread stands, and for the tasks that wait.
abbrev weight : Pc → ℕ
weight at_top = 2
weight before_wait = 1
weight (sleeping_indirect wait) = 3
weight (sleeping_direct wait) = 3
weight _ = 0

abbrev to_go : System → ℕ
to_go s = 4 * length s.worker.tasks + weight s.worker.pc

-- A thread that has started and has neither ended nor been told to.
record Works (s : System) : Type 0 where
  runs : is_running s.worker.pc ≡ true
  awake : is_woken s.worker.pc ≡ false
  on : s.worker.stop ≡ false

-- A thread that waits for a task, with none there.
abbrev pub IsDone : System → Type 0
IsDone s = (s.worker.pc ≡ blocked) × (s.worker.tasks ≡ [])

module _ (type : SwitchType) (t : ℕ) (s : System) where
  step-Works : Works s → Works (step type (turns t) s)
  unfolding step
  step-Works h = ground arith

  step-IsDone : IsDone s → IsDone (step type (turns t) s)
  unfolding step
  step-IsDone h = ground arith

  step_goes : Works s → IsDone s ⊎ (to_go (step type (turns t) s) < to_go s)
  unfolding step
  step_goes h = ground arith

run-IsDone :
    (type : SwitchType) (ts : List ℕ) (s : System) → IsDone s → IsDone (run type (turns_at ts) s)
unfolding run
run-IsDone type [] s h = h
run-IsDone type (t ∷ ts) s h = run-IsDone type ts (step type (turns t) s) (step-IsDone type t s h)

to_go_zero : (s : System) → Works s → to_go s ≤ 0 → IsDone s
to_go_zero s h z = ground arith

run_drains :
    (type : SwitchType) (ts : List ℕ) (s : System)
    → Works s
    → to_go s ≤ length ts
    → IsDone (run type (turns_at ts) s)
unfolding run
run_drains type [] s h l = to_go_zero s h l
run_drains type (t ∷ ts) s h l =
    let s' = step type (turns t) s in
    elim (step_goes type t s h) [
      | inl done ↦ run-IsDone type ts s' (step-IsDone type t s done)
      | inr less ↦ run_drains type ts s' (step-Works type t s h) (omega arith)
    ]

-- A thread that has started, has not ended, and has not been told to stop gets through its queue:
-- after at least four turns for each task that waits and three more, whatever the times, it waits
-- for the next task and none is left.
pub queue_drains :
    (type : SwitchType) (ts : List ℕ) (s : System)
    → is_running s.worker.pc ≡ true
    → is_woken s.worker.pc ≡ false
    → s.worker.stop ≡ false
    → 4 * length s.worker.tasks + 3 ≤ length ts
    → IsDone (run type (turns_at ts) s)
queue_drains type ts s r a o l =
    run_drains type ts s (record { runs = r; awake = a; on = o }) (ground arith)

-- A task that comes to a fresh thread and has not expired at its second turn, on any relay: after
-- two turns the door is open and the thread sleeps for what is left of the task's time; the turn
-- after the sleep closes the door.
pub task_opens_and_closes :
    (type : SwitchType) (n : Notification) (t0 t1 t2 : ℕ)
    → first_expired t1 (n ∷ []) ≡ false
    → let s = run type (adds n ∷ turns t0 ∷ turns t1 ∷ []) started in
      let s' = run type (turns t2 ∷ []) s in
      (s.door ≡ true)
      × ((s.worker.pc ≡ sleeping_direct (real_wait t1 n))
          ⊎ (s.worker.pc ≡ sleeping_indirect (real_wait t1 n)))
      × (s'.door ≡ false)
      × (is_sleeping s'.worker.pc ≡ false)
unfolding run step started
task_opens_and_closes type n t0 t1 t2 fresh = ground arith
