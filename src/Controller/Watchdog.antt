-- ===== src/Controller/Watchdog.antt =====
-- src/DoorSwitchChannelController.h and .cpp: the watch over the board's replies, a
-- boost::asio::deadline_timer and the asynchronous read. Times are microseconds. The calls of asio
-- are recorded, newest first; the callback is reported as `true` and made by the caller.
use door_switch_svr.Prelude.{
  ℕ, ◌+◌, ◌*◌, List, [], ◌∷◌, Bool, true, false, ◌||◌, ◌==◌, leb, if◌then◌else◌,
}

-- `unset` is the not_a_date_time of a new timer, `never` is pos_infin.
pub data Deadline : Type 0 where
  unset never : Deadline
  due : ℕ → Deadline

pub data AsioCall : Type 0 where
  set_deadline : Deadline → AsioCall
  async_wait : AsioCall
  async_read : ℕ → AsioCall

pub record Watch : Type 0 where
  pub deadline : Deadline
  pub calls : List AsioCall

abbrev pub new_watch : Watch
new_watch = record { deadline = unset; calls = [] }

-- `expires_at(d)` and then `async_wait(check_read_ret_deadline)`.
unfoldable pub rearm : Deadline → Watch → Watch
rearm d w = record w { deadline = d; calls = async_wait ∷ set_deadline d ∷ w.calls }

abbrev pub reply_limit : ℕ
reply_limit = 30 * 1000 * 1000

unfoldable pub set_read_ret_deadline : ℕ → Watch → Watch
unfolding rearm
set_read_ret_deadline now w =
    let w' = rearm (due (now + reply_limit)) w in record w' { calls = async_read 3 ∷ w'.calls }

unfoldable pub handle_read_ret : Bool → ℕ → Watch → Watch × Bool
unfolding rearm
handle_read_ret ec read_size w = (rearm never w, ec || (read_size == 0))

-- `expires_at() <= now()`.
abbrev pub is_reached : Deadline → ℕ → Bool
is_reached unset now = false
is_reached never now = false
is_reached (due t) now = leb t now

unfoldable pub check_read_ret_deadline : ℕ → Watch → Watch × Bool
unfolding rearm
check_read_ret_deadline now w =
    if is_reached w.deadline now then (rearm never w, true) else (w, false)

abbrev pub is_never : Deadline → Bool
is_never never = true
is_never _ = false
