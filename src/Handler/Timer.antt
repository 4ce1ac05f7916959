-- ===== src/Handler/Timer.antt =====
-- The calls that a handler makes of its socket, its io service and its Poco::Timer, and what the
-- documentation of Poco::Timer says of them: `start` makes it run, `stop` ends it, `restart(n)` sets
-- the period and makes it run, or ends it if `n` is 0; the first call after `start` comes after the start interval,
-- and each later one after the period.
use door_switch_svr.Prelude.{
  ℕ, List, [], ◌∷◌, Bool, true, false, not, Option, none, some, ◌==◌, if◌then◌else◌,
}

pub data Call : Type 0 where
  socket_connect socket_close timer_stop timer_start io_run io_stop io_join : Call
  -- The start interval and the periodic interval.
  timer_new : ℕ → ℕ → Call
  timer_set_period timer_restart : ℕ → Call

-- Whether the timer runs after the calls, newest first.
abbrev pub timer_runs : List Call → Bool
timer_runs [] = false
timer_runs (timer_start ∷ calls) = true
timer_runs (timer_stop ∷ calls) = false
timer_runs (timer_restart n ∷ calls) = not (n == 0)
timer_runs (_ ∷ calls) = timer_runs calls

-- The start interval, which the constructor sets.
abbrev pub start_interval : List Call → Option ℕ
start_interval [] = none
start_interval (timer_new start n ∷ calls) = some start
start_interval (_ ∷ calls) = start_interval calls

-- How long the timer waits for its next call, in milliseconds, at the end of these calls: a period
-- that `onReconnTimer` sets counts from the end of that call.
abbrev pub next_wait : List Call → Option ℕ
next_wait [] = none
next_wait (timer_new start n ∷ calls) = none
next_wait (timer_start ∷ calls) = start_interval calls
next_wait (timer_stop ∷ calls) = none
next_wait (timer_set_period n ∷ calls) = some n
next_wait (timer_restart n ∷ calls) = if n == 0 then none else some n
next_wait (_ ∷ calls) = next_wait calls

-- Whether the socket is open: a connect opens it.
abbrev pub is_socket_open : List Call → Bool
is_socket_open [] = false
is_socket_open (socket_connect ∷ calls) = true
is_socket_open (socket_close ∷ calls) = false
is_socket_open (_ ∷ calls) = is_socket_open calls
