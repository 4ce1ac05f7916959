-- ===== src/Controller/Run.antt =====
-- src/DoorSwitchChannelController.h (DoorSwitchOpenNotification, addTask, Start, close) and .cpp
-- (run): the thread of one door and its queue. One `turn` is one run of the thread between two points
-- where another thread may act: the test of m_stop, the queue, and the sleep. Times are microseconds.
pub mod Schedule
pub mod Indirect
pub mod Direct
pub mod Expiry
pub mod Shutdown
pub mod Order
pub mod Queue
pub mod Deadline
mod Tests
use door_switch_svr.Prelude.{
  ℕ, ◌-◌, ◌/◌, List, [], ◌∷◌, ◌++◌, Bool, true, false, not, Option, none, some, is_empty,
  if◌then◌else◌,
}
use door_switch_svr.Prelude.Int.{ℤ, pos, negsuc, ◌-ℤ◌, leb_ℤ, ltb_ℤ, i32}
use door_switch_svr.Param.{
  SwitchType, direct_control_switch, indirect_control_switch, unnamed_switch, micro2ms,
}

pub record Notification : Type 0 where
  pub close_after_ms : ℤ
  pub started : ℕ

-- `m_sw.elapsed() / MICRO2MS`, narrowed to `int`.
unfoldable pub get_elapsed : ℕ → Notification → ℤ
get_elapsed now n = i32 ((now - n.started) / micro2ms)

-- `Poco::NotificationQueue`, of tasks alone. `dequeue` gives the oldest, or `none` where
-- `waitDequeueNotification` would block.
pub record NotificationQueue : Type 1 where
  pub Queue : Type 0
  pub new_queue : Queue
  pub enqueue : Notification → Queue → Queue
  pub dequeue : Queue → Option (Notification × Queue)
  pub has_none : Queue → Bool
  pub clear : Queue → Queue

-- Where the thread stands. `before_wait` is past the test of m_stop, `blocked` is inside the wait for
-- a notification, `woken` is a wait that ended with no notification.
pub data Pc : Type 0 where
  not_started at_top before_wait blocked woken finished : Pc
  sleeping_indirect sleeping_direct : ℤ → Pc

-- `sendData(make_open_command(m_channel))` and `sendData(make_close_command(m_channel))`.
pub data Request : Type 0 where
  opening closing : Request

-- `realWait` in milliseconds, of integers; `overflows` tells when `int` does not hold it.
unfoldable pub real_wait : ℕ → Notification → ℤ
unfolding get_elapsed ◌-ℤ◌
real_wait now n = n.close_after_ms -ℤ get_elapsed now n

abbrev pub is_running : Pc → Bool
is_running not_started = false
is_running finished = false
is_running _ = true

-- `wakeUpAll()` ends the wait of a thread that waits now.
abbrev pub wake_up : Pc → Pc
wake_up blocked = woken
wake_up pc = pc

module _ (queue : NotificationQueue) where
  pub record QueueWorker : Type 0 where
    pub tasks : queue.Queue
    pub stop : Bool
    pub noti_in_q : Bool
    pub pc : Pc

  -- A task that did not expire: the two kinds of relay.
  begin_task : SwitchType → ℤ → QueueWorker → QueueWorker × Option Request
  begin_task indirect_control_switch wait w =
      (record w { pc = sleeping_indirect wait }, some opening)
  begin_task direct_control_switch wait w =
      (record w { pc = sleeping_direct wait }, if w.noti_in_q then none else some opening)
  begin_task (unnamed_switch n) wait w =
      (record w { pc = sleeping_direct wait }, if w.noti_in_q then none else some opening)

  -- A notification was dequeued: `w` has the queue without it.
  process : SwitchType → ℕ → Notification → QueueWorker → QueueWorker × Option Request
  unfolding begin_task real_wait
  process type now n w =
      if leb_ℤ (real_wait now n) (pos 0)
      then (record w { noti_in_q = not (queue.has_none w.tasks); pc = at_top }, none)
      else begin_task type (real_wait now n) w

  -- `waitDequeueNotification()`: the oldest of the queue, or the thread blocks.
  take_task :
      SwitchType
      → ℕ
      → Option (Notification × queue.Queue)
      → QueueWorker
      → QueueWorker × Option Request
  unfolding process
  take_task type now none w = (record w { pc = blocked }, none)
  take_task type now (some (n, rest)) w = process type now n (record w { tasks = rest })

  -- The end of the sleep of a direct relay.
  wake_direct : QueueWorker → QueueWorker × Option Request
  wake_direct w =
      let w' = record w { noti_in_q = not (queue.has_none w.tasks); pc = at_top } in
      (w', if w'.noti_in_q then none else some closing)

  turn_at : Pc → SwitchType → ℕ → QueueWorker → QueueWorker × Option Request
  unfolding take_task wake_direct
  turn_at not_started type now w = (w, none)
  turn_at at_top type now w =
      (if w.stop then record w { pc = finished } else record w { pc = before_wait }, none)
  turn_at before_wait type now w = take_task type now (queue.dequeue w.tasks) w
  turn_at blocked type now w = take_task type now (queue.dequeue w.tasks) w
  turn_at woken type now w = (record w { pc = finished }, none)
  turn_at finished type now w = (w, none)
  turn_at (sleeping_indirect wait) type now w =
      (record w { noti_in_q = false; pc = at_top }, some closing)
  turn_at (sleeping_direct wait) type now w = wake_direct w

  unfoldable pub queue_turn : SwitchType → ℕ → QueueWorker → QueueWorker × Option Request
  unfolding turn_at
  queue_turn type now w = turn_at w.pc type now w

  unfoldable pub queue_add_task : Notification → QueueWorker → QueueWorker
  queue_add_task n w = record w { tasks = queue.enqueue n w.tasks }

  -- `run` begins with `bNotiInQ = false`.
  unfoldable pub queue_start : QueueWorker → QueueWorker
  queue_start w = if is_running w.pc then w else record w { pc = at_top; noti_in_q = false }

  -- `close()` up to `m_thread.join()`, which returns once the thread has finished.
  unfoldable pub queue_close : QueueWorker → QueueWorker
  queue_close w = record w { stop = true; tasks = queue.clear w.tasks; pc = wake_up w.pc }

-- The tasks in the order of their arrival.
abbrev pub dequeue_list : List Notification → Option (Notification × List Notification)
dequeue_list [] = none
dequeue_list (n ∷ rest) = some (n, rest)

abbrev pub list_queue : NotificationQueue
list_queue = record {
  Queue = List Notification;
  new_queue = [];
  enqueue = λ n tasks. tasks ++ (n ∷ []);
  dequeue = dequeue_list;
  has_none = is_empty;
  clear = λ tasks. [];
}

abbrev pub Worker : Type 0
Worker = QueueWorker list_queue

abbrev pub new_worker : Worker
new_worker = record { tasks = []; stop = false; noti_in_q = false; pc = not_started }

-- Whether the subtraction for `realWait` overflows `int`, which is undefined behaviour: of a time to
-- close that an `int` holds, and an elapsed time of this sign.
abbrev pub difference_overflows : ℤ → ℤ → Bool
difference_overflows (pos elapsed) difference = ltb_ℤ difference (negsuc 2147483647)
difference_overflows (negsuc elapsed) difference = ltb_ℤ (pos 2147483647) difference

pub wait_overflows : ℕ → Notification → Bool
unfolding get_elapsed real_wait
wait_overflows now n = difference_overflows (get_elapsed now n) (real_wait now n)

-- The task that a turn takes at this time.
overflows_at : Pc → ℕ → List Notification → Bool
unfolding wait_overflows
overflows_at before_wait now (n ∷ rest) = wait_overflows now n
overflows_at blocked now (n ∷ rest) = wait_overflows now n
overflows_at _ now tasks = false

unfoldable pub overflows : ℕ → Worker → Bool
unfolding overflows_at
overflows now w = overflows_at w.pc now w.tasks

unfoldable pub turn : SwitchType → ℕ → Worker → Worker × Option Request
unfolding queue_turn
turn = queue_turn list_queue

unfoldable pub add_task : Notification → Worker → Worker
unfolding queue_add_task
add_task = queue_add_task list_queue

unfoldable pub start : Worker → Worker
unfolding queue_start
start = queue_start list_queue

unfoldable pub close : Worker → Worker
unfolding queue_close
close = queue_close list_queue
