-- ===== src/Controller.antt =====
-- src/DoorSwitchChannelController.h and .cpp: the controller of one door.
pub mod Command
pub mod Frame
pub mod Watchdog
pub mod Run
pub mod Watching
pub mod Kept
pub mod Defined
pub mod Written
pub mod Unanswered
pub mod Board
mod Tests
use door_switch_svr.Prelude.{
  ℕ, List, [], ◌∷◌, Bool, true, false, ◌||◌, Option, none, some, ltb, if◌then◌else◌, length,
}
use door_switch_svr.Prelude.Int.{pos, i16}
use door_switch_svr.Param.{SwitchType, ErrCode, err_ok}
use Command.{make_open_command, make_close_command}
use Watchdog.{
  Watch, never, new_watch, rearm, set_read_ret_deadline, is_never, handle_read_ret,
  check_read_ret_deadline,
}
use Run.{Notification, Worker, new_worker, Request, opening, closing, turn, overflows}
use Run

-- `has_callback` is false while m_handleRWErrorCbFunc is empty.
pub record Controller : Type 0 where
  pub channel : ℕ
  pub has_callback : Bool
  pub watch : Watch
  pub worker : Worker

unfoldable pub new_controller : Controller
new_controller = record {
  channel = 1;
  has_callback = false;
  watch = new_watch;
  worker = new_worker;
}

unfoldable pub init : ℕ → Controller → Controller × ErrCode
unfolding rearm
init channel c =
    (record c { channel = channel; has_callback = true; watch = rearm never c.watch }, err_ok)

unfoldable pub add_task : Notification → Controller → Controller
unfolding Run.add_task
add_task n c = record c { worker = Run.add_task n c.worker }

unfoldable pub start : Controller → Controller
unfolding Run.start
start c = record c { worker = Run.start c.worker }

unfoldable pub close : Controller → Controller
unfolding Run.close
close c = record c { worker = Run.close c.worker }

-- What `boost::asio::write` gives back.
pub record WriteResult : Type 0 where
  pub error : Bool
  pub len : ℕ

-- The second part is true if the error callback was called.
unfoldable pub send_data : List ℕ → WriteResult → ℕ → Controller → Controller × Bool
unfolding set_read_ret_deadline
send_data bytes result now c =
    if result.error || ltb result.len (length bytes)
    then (c, true)
    else if is_never c.watch.deadline
    then (record c { watch = set_read_ret_deadline now c.watch }, false)
    else (c, false)

-- The bytes of a request for the controller's channel, an `unsigned short` passed as a `short`.
unfoldable pub command : Request → ℕ → Option (List ℕ)
command opening channel = make_open_command (i16 (pos channel))
command closing channel = make_close_command (i16 (pos channel))

pub answer : Option Request → WriteResult → ℕ → Controller → Option (Controller × Bool)
unfolding command send_data
answer none result now c = some (c, false)
answer (some r) result now c = elim (command r c.channel) [
  | none ↦ none
  | some bytes ↦ some (send_data bytes result now c)
]

-- One turn of `run` with the result of the write that it may make; `none` is undefined behaviour: in
-- the subtraction for `realWait`, or in the making of the command.
unfoldable pub run_turn : SwitchType → WriteResult → ℕ → Controller → Option (Controller × Bool)
unfolding turn answer overflows
run_turn type result now c =
    let (w, request) = turn type now c.worker in
    if overflows now c.worker then none else answer request result now (record c { worker = w })

-- The handlers that asio calls for this controller; true if the error callback was called.
unfoldable pub read_ret : Bool → ℕ → Controller → Controller × Bool
unfolding handle_read_ret
read_ret ec read_size c =
    let (w, raised) = handle_read_ret ec read_size c.watch in (record c { watch = w }, raised)

unfoldable pub check_deadline : ℕ → Controller → Controller × Bool
unfolding check_read_ret_deadline
check_deadline now c =
    let (w, raised) = check_read_ret_deadline now c.watch in (record c { watch = w }, raised)
