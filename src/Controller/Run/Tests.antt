-- ===== src/Controller/Run/Tests.antt =====
-- The theorems on the thread of a door at concrete values.
use door_switch_svr.Prelude.{
  ◌+◌, ◌*◌, ◌≤◌, ◌<◌, inl, append_assoc, append-nil, ◌≡◌, refl, sym, ap, Option, some, ◌⊎◌, List,
  [], ◌∷◌, ◌++◌, true, false, ◌&&◌, ◌||◌, not, none, arith, is_empty,
}
use door_switch_svr.Prelude.Int.{pos}
use door_switch_svr.Param.{direct_control_switch, indirect_control_switch}
use door_switch_svr.Controller.Run.{
  Notification, NotificationQueue, dequeue_list, Pc, blocked, before_wait, sleeping_direct,
  real_wait, Worker, new_worker, at_top, turn,
}
use door_switch_svr.Controller.Run.Schedule.{
  Event, turns, adds, closes, System, is_sleeping, turns_at, started, run, step,
}
use door_switch_svr.Controller.Run.Indirect.{indirect_open_asleep}
use door_switch_svr.Controller.Run.Direct.{is_resting, direct_open_asleep}
use door_switch_svr.Controller.Run.Expiry.{expired_leaves_open, expired_skips_open}
use door_switch_svr.Controller.Run.Deadline.{SleepsUntil, task_meets_deadline}
use door_switch_svr.Controller.Run.Order.{taken, IsDone, tasks_in_order, queue_drains}
use door_switch_svr.Controller.Run.Queue.{IsQueue, rest_as}
use door_switch_svr.Controller.Run.Shutdown.{close_lost}

abbrev three_seconds : Notification
three_seconds = record { close_after_ms = pos 3000; started = 0 }

abbrev no_time : Notification
no_time = record { close_after_ms = pos 0; started = 0 }

abbrev opens_once : List Event
opens_once = adds three_seconds ∷ turns 1000 ∷ turns 2000 ∷ []

indirect_open_asleep_example :
    let s = run indirect_control_switch opens_once started in s.door ≡ is_sleeping s.worker.pc
indirect_open_asleep_example = indirect_open_asleep opens_once

direct_open_asleep_example :
    let s = run direct_control_switch opens_once started in
    (s.door ≡ is_sleeping s.worker.pc || (s.worker.noti_in_q && not (is_empty s.worker.tasks)))
    × (is_resting s.worker.pc && s.door ≡ false)
unfolding step started real_wait
direct_open_asleep_example =
    direct_open_asleep direct_control_switch refl opens_once (refl, (refl, (refl, tt)))

expired_leaves_open_example :
    (run direct_control_switch
      (adds three_seconds
        ∷ turns 0
        ∷ turns 1
        ∷ adds no_time
        ∷ turns 3000001
        ∷ turns 3000002
        ∷ turns 3000003
        ∷ turns_at (4000000 ∷ []))
      started).door
    ≡ true
unfolding real_wait
expired_leaves_open_example =
    expired_leaves_open direct_control_switch refl three_seconds no_time 0 1 3000001 3000002 3000003
      refl refl (4000000 ∷ [])

expired_skips_open_example :
    let s =
      run direct_control_switch
        (adds no_time ∷ adds three_seconds ∷ turns 0 ∷ turns 1 ∷ turns 2 ∷ turns 3 ∷ [])
        started in
    (s.worker.pc ≡ sleeping_direct (real_wait 3 three_seconds)) × (s.door ≡ false)
unfolding real_wait
expired_skips_open_example =
    expired_skips_open direct_control_switch refl no_time three_seconds 0 1 2 3 4 refl refl

abbrev at : Pc → System
at pc = record {
  worker = record { tasks = []; stop = false; noti_in_q = false; pc = pc };
  door = true;
}

close_lost_example :
    (run direct_control_switch (closes ∷ turns 0 ∷ turns_at (1 ∷ [])) (at before_wait)).worker.pc
    ≡ blocked
close_lost_example = close_lost direct_control_switch (at before_wait) 0 (1 ∷ []) refl

-- A thread about to wait, with two tasks.
abbrev busy : System
busy = record {
  worker = record {
    tasks = three_seconds ∷ no_time ∷ [];
    stop = false;
    noti_in_q = false;
    pc = before_wait;
  };
  door = false;
}

tasks_in_order_example :
    let es = turns 1 ∷ adds three_seconds ∷ turns 3000001 ∷ [] in
    three_seconds ∷ no_time ∷ three_seconds ∷ []
    ≡ taken direct_control_switch es busy ++ (run direct_control_switch es busy).worker.tasks
tasks_in_order_example =
    tasks_in_order direct_control_switch (turns 1 ∷ adds three_seconds ∷ turns 3000001 ∷ []) busy
      (tt, (tt, (tt, tt)))

queue_drains_example :
    IsDone
      (run direct_control_switch (turns_at (1 ∷ 2 ∷ 3 ∷ 4 ∷ 5 ∷ 6 ∷ 7 ∷ 8 ∷ 9 ∷ 10 ∷ 11 ∷ [])) busy)
queue_drains_example =
    queue_drains direct_control_switch (1 ∷ 2 ∷ 3 ∷ 4 ∷ 5 ∷ 6 ∷ 7 ∷ 8 ∷ 9 ∷ 10 ∷ 11 ∷ []) busy refl
      refl refl (omega arith)

-- A queue of two lists: the tasks in front, and those behind them, the newest first.
abbrev reverse : List Notification → List Notification
reverse [] = []
reverse (n ∷ ns) = reverse ns ++ (n ∷ [])

abbrev behind : List Notification → Option (Notification × (List Notification × List Notification))
behind [] = none
behind (n ∷ ns) = some (n, (ns, []))

abbrev dequeue_two :
    List Notification × List Notification
    → Option (Notification × (List Notification × List Notification))
dequeue_two ([], back) = behind (reverse back)
dequeue_two (n ∷ front, back) = some (n, (front, back))

abbrev two_lists : NotificationQueue
two_lists = record {
  Queue = List Notification × List Notification;
  new_queue = ([], []);
  enqueue = λ n q. (q.0, n ∷ q.1);
  dequeue = dequeue_two;
  has_none = λ q. is_empty (q.0 ++ reverse q.1);
  clear = λ q. ([], []);
}

abbrev all_tasks : List Notification × List Notification → List Notification
all_tasks (front, back) = front ++ reverse back

behind-rest : (ns : List Notification) → rest_as all_tasks (behind ns) ≡ dequeue_list ns
behind-rest [] = refl
behind-rest (n ∷ ns) = ap (λ r. some (n, r)) (append-nil ns)

dequeue_two-rest :
    (front back : List Notification)
    → rest_as all_tasks (dequeue_two (front, back)) ≡ dequeue_list (all_tasks (front, back))
dequeue_two-rest [] back = behind-rest (reverse back)
dequeue_two-rest (n ∷ front) back = refl

two_lists-IsQueue : IsQueue two_lists
two_lists-IsQueue = record {
  tasks = all_tasks;
  tasks-new_queue = refl;
  tasks-enqueue = λ n q. sym (append_assoc q.0 (reverse q.1) (n ∷ []));
  tasks-dequeue = λ q. dequeue_two-rest q.0 q.1;
  tasks-has_none = λ q. refl;
  tasks-clear = λ q. refl;
}

abbrev at_task : Worker
at_task = record new_worker { tasks = three_seconds ∷ []; pc = before_wait }

task_meets_deadline_example :
    let due = three_seconds.started + 1000 * 3000 in
    let (w, request) = turn direct_control_switch 2000 at_task in
    (w.tasks ≡ [])
    × (((due ≤ 2000) × (request ≡ none) × (w.pc ≡ at_top))
        ⊎ ((2000 < due) × SleepsUntil due 2000 w.pc))
task_meets_deadline_example =
    task_meets_deadline 2000 three_seconds 3000 refl (omega arith) (omega arith)
      direct_control_switch [] at_task (inl refl) refl
