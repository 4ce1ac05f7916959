-- ===== src/Controller/Run/Queue.antt =====
-- The thread of a door on any queue that keeps what the documentation says of
-- Poco::NotificationQueue, against the thread on the list of its tasks.
use door_switch_svr.Prelude.{
  ℕ, List, [], ◌∷◌, ◌++◌, ◌≡◌, refl, ◌∙◌, ap, Bool, false, Option, none, some, arith, is_empty,
}
use door_switch_svr.Param.{SwitchType}
use door_switch_svr.Controller.Run.{
  Notification, NotificationQueue, Pc, not_started, at_top, before_wait, blocked, woken, finished,
  sleeping_indirect, sleeping_direct, Request, QueueWorker, Worker, begin_task, process, take_task,
  wake_direct, turn_at, queue_turn, queue_add_task, queue_start, queue_close, dequeue_list,
  list_queue, turn, add_task, start, close,
}
use door_switch_svr.Controller.Run.Schedule.{
  Event, turns, adds, closes, System, move, step, run, started,
}

-- The rest of the queue as its tasks.
abbrev pub rest_as :
    {Q : Type 0}
    → (Q → List Notification)
    → Option (Notification × Q)
    → Option (Notification × List Notification)
rest_as tasks none = none
rest_as tasks (some (n, q)) = some (n, tasks q)

-- The tasks of a queue, in the order of their arrival, and what each operation does to them.
pub record IsQueue (queue : NotificationQueue) : Type 0 where
  pub tasks : queue.Queue → List Notification
  pub tasks-new_queue : tasks queue.new_queue ≡ []
  pub tasks-enqueue :
      (n : Notification) (q : queue.Queue) → tasks (queue.enqueue n q) ≡ tasks q ++ (n ∷ [])
  pub tasks-dequeue : (q : queue.Queue) → rest_as tasks (queue.dequeue q) ≡ dequeue_list (tasks q)
  pub tasks-has_none : (q : queue.Queue) → queue.has_none q ≡ is_empty (tasks q)
  pub tasks-clear : (q : queue.Queue) → tasks (queue.clear q) ≡ []

pub record QueueSystem (queue : NotificationQueue) : Type 0 where
  pub worker : QueueWorker queue
  pub door : Bool

abbrev pub queue_step :
    (queue : NotificationQueue) → SwitchType → Event → QueueSystem queue → QueueSystem queue
queue_step queue type (turns now) s =
    let (w, request) = queue_turn queue type now s.worker in
    record { worker = w; door = move request s.door }
queue_step queue type (adds n) s = record s { worker = queue_add_task queue n s.worker }
queue_step queue type closes s = record s { worker = queue_close queue s.worker }

-- The thread on a queue, with any order of its turns, new tasks and the shutdown.
abbrev pub queue_run :
    (queue : NotificationQueue) → SwitchType → List Event → QueueSystem queue → QueueSystem queue
queue_run queue type [] s = s
queue_run queue type (e ∷ es) s = queue_run queue type es (queue_step queue type e s)

abbrev pub queue_started : (queue : NotificationQueue) → QueueSystem queue
queue_started queue = record {
  worker =
      queue_start queue
        (record { tasks = queue.new_queue; stop = false; noti_in_q = false; pc = not_started });
  door = false;
}

module _ (queue : NotificationQueue) (laws : IsQueue queue) where
  -- The thread as the one on the list of the tasks.
  abbrev pub as_worker : QueueWorker queue → Worker
  as_worker w = record {
    tasks = laws.tasks w.tasks;
    stop = w.stop;
    noti_in_q = w.noti_in_q;
    pc = w.pc;
  }

  abbrev pub as_system : QueueSystem queue → System
  as_system s = record { worker = as_worker s.worker; door = s.door }

  abbrev as_turn : QueueWorker queue × Option Request → Worker × Option Request
  as_turn (w, request) = (as_worker w, request)

  process-as :
      (type : SwitchType) (now : ℕ) (n : Notification) (w : QueueWorker queue)
      → as_turn (process queue type now n w) ≡ process list_queue type now n (as_worker w)
  unfolding process begin_task
  process-as type now n w = ground (arith, laws.tasks-has_none w.tasks)

  take_task-as :
      (type : SwitchType) (now : ℕ) (o : Option (Notification × queue.Queue))
      (w : QueueWorker queue)
      → as_turn (take_task queue type now o w)
        ≡ take_task list_queue type now (rest_as laws.tasks o) (as_worker w)
  unfolding take_task
  take_task-as type now none w = refl
  take_task-as type now (some (n, q)) w = process-as type now n (record w { tasks = q })

  dequeues-as :
      (type : SwitchType) (now : ℕ) (w : QueueWorker queue)
      → as_turn (take_task queue type now (queue.dequeue w.tasks) w)
        ≡ take_task list_queue type now (dequeue_list (laws.tasks w.tasks)) (as_worker w)
  dequeues-as type now w =
      take_task-as type now (queue.dequeue w.tasks) w
      ∙ ap (λ o. take_task list_queue type now o (as_worker w)) (laws.tasks-dequeue w.tasks)

  turn_at-as :
      (pc : Pc) (type : SwitchType) (now : ℕ) (w : QueueWorker queue)
      → as_turn (turn_at queue pc type now w) ≡ turn_at list_queue pc type now (as_worker w)
  unfolding turn_at wake_direct
  turn_at-as not_started type now w = refl
  turn_at-as at_top type now w = ground arith
  turn_at-as before_wait type now w = dequeues-as type now w
  turn_at-as blocked type now w = dequeues-as type now w
  turn_at-as woken type now w = refl
  turn_at-as finished type now w = refl
  turn_at-as (sleeping_indirect wait) type now w = refl
  turn_at-as (sleeping_direct wait) type now w = ground (arith, laws.tasks-has_none w.tasks)

  step-as :
      (type : SwitchType) (e : Event) (s : QueueSystem queue)
      → as_system (queue_step queue type e s) ≡ step type e (as_system s)
  unfolding queue_turn queue_add_task queue_close step turn add_task close
  step-as type (turns now) s =
      ap (λ (r : Worker × Option Request). record { worker = r.0; door = move r.1 s.door })
        (turn_at-as s.worker.pc type now s.worker)
  step-as type (adds n) s = ground (arith, laws.tasks-enqueue n s.worker.tasks)
  step-as type closes s = ground (arith, laws.tasks-clear s.worker.tasks)

  run-as :
      (type : SwitchType) (es : List Event) (s : QueueSystem queue)
      → as_system (queue_run queue type es s) ≡ run type es (as_system s)
  unfolding run
  run-as type [] s = refl
  run-as type (e ∷ es) s =
      run-as type es (queue_step queue type e s) ∙ ap (run type es) (step-as type e s)

  -- On any queue that keeps its documentation, the thread of a door, in any order of its turns, new
  -- tasks and the shutdown, does what the thread on the list of its tasks does: the door is in the
  -- same state, the thread at the same place, and the same tasks wait in the same order.
  pub queue_refines :
      (type : SwitchType) (es : List Event)
      → as_system (queue_run queue type es (queue_started queue)) ≡ run type es started
  unfolding started start queue_start
  queue_refines type es =
      run-as type es (queue_started queue)
      ∙ ap
          (λ (q : List Notification). run type es (record {
            worker = record { tasks = q; stop = false; noti_in_q = false; pc = at_top };
            door = false;
          }))
          laws.tasks-new_queue
