-- ===== src/Handler/Race.antt =====
-- Errors in a burst, recovery after failed attempts, and an error that falls between the steps of
-- `onReconnTimer`.
use door_switch_svr.Prelude.{
  ℕ, zero, suc, List, [], ◌∷◌, ◌≡◌, refl, ◌∙◌, ap, true, false, none, arith, if◌then◌else◌,
}
use door_switch_svr.Prelude.Int.{ℤ}
use door_switch_svr.Handler.{
  Handler, timer_called, timer_returned, on_reconn_timer, handle_rw_error, open_door,
}
use door_switch_svr.Handler.Timer.{
  timer_runs, timer_start, timer_set_period, timer_stop, socket_close,
}
use door_switch_svr.Handler.Backoff.{fail_times}

unfoldable pub error_times : ℕ → Handler → Handler
error_times zero h = h
error_times (suc n) h = error_times n (handle_rw_error h)

handle_rw_error_idem :
    (h : Handler) → h.in_timer ≡ none → handle_rw_error (handle_rw_error h) ≡ handle_rw_error h
unfolding handle_rw_error
handle_rw_error_idem h idle = ground arith

error_times_idem :
    (n : ℕ) (h : Handler)
    → h.in_timer ≡ none
    → error_times n (handle_rw_error h) ≡ handle_rw_error h
unfolding error_times
error_times_idem zero h idle = refl
error_times_idem (suc n) h idle =
    ap (error_times n) (handle_rw_error_idem h idle) ∙ error_times_idem n h idle

-- A burst of errors, one or more, while no call of the timer is under way, is one error: it disconnects the switch, leaves the doors alone,
-- and starts the reconnect timer once if it was off and not at all if it was on.
pub errors_start_one_timer :
    (n : ℕ) (h : Handler)
    → h.in_timer ≡ none
    → let h' = error_times (suc n) h in
      (h'.connected ≡ false)
      × (h'.timer_on ≡ true)
      × (h'.controllers ≡ h.controllers)
      × (h'.calls ≡ (
          if h.timer_on
          then h.calls
          else timer_start ∷ timer_set_period 2000 ∷ timer_stop ∷ socket_close ∷ h.calls))
unfolding handle_rw_error error_times
errors_start_one_timer n h idle = rw (error_times_idem n h idle) (ground arith)

fail_times-runs :
    (k : ℕ) (h : Handler) → timer_runs h.calls ≡ true → timer_runs (fail_times k h).calls ≡ true
unfolding fail_times on_reconn_timer
fail_times-runs zero h r = r
fail_times-runs (suc k) h r = ground (arith, fail_times-runs k h r)

-- If the timer runs, failed attempts leave it running, however many, and the first attempt that
-- succeeds connects the switch, ends the timer and sets the interval back to two seconds.
pub recovers_after_failures :
    (k : ℕ) (h : Handler)
    → timer_runs h.calls ≡ true
    → let failed = fail_times k h in
      let h' = on_reconn_timer false failed in
      (timer_runs failed.calls ≡ true)
      × (h'.connected ≡ true)
      × (h'.timer_on ≡ false)
      × (timer_runs h'.calls ≡ false)
      × (h'.interval ≡ 2)
unfolding on_reconn_timer
recovers_after_failures k h r = (fail_times-runs k h r, refl, refl, refl, refl)

-- Requests to open doors: channel, time to close, time of arrival.
abbrev pub open_all : List (ℤ × ℤ × ℕ) → Handler → Handler
open_all [] h = h
open_all ((channel, close_after_ms, now) ∷ rs) h =
    open_all rs (open_door channel close_after_ms now h).0

pub door_refused :
    (channel close_after_ms : ℤ) (now : ℕ) (h : Handler)
    → h.connected ≡ false
    → (open_door channel close_after_ms now h).0 ≡ h
unfolding open_door
door_refused channel close_after_ms now h d = ground arith

open_all_refused : (rs : List (ℤ × ℤ × ℕ)) (h : Handler) → h.connected ≡ false → open_all rs h ≡ h
open_all_refused [] h d = refl
open_all_refused ((channel, close_after_ms, now) ∷ rs) h d =
    ap (open_all rs) (door_refused channel close_after_ms now h d) ∙ open_all_refused rs h d

-- While the reconnect timer is on, an error of a read or a write that falls into `onReconnTimer`
-- between its successful `reconnect()` and the statements behind it is lost: the switch is left
-- disconnected with no timer running, and no later request to open a door changes that.
pub error_in_reconnect_is_lost :
    (h : Handler) (rs : List (ℤ × ℤ × ℕ))
    → h.timer_on ≡ true
    → let h' = open_all rs (timer_returned (handle_rw_error (timer_called false h))) in
      (h'.connected ≡ false) × (h'.timer_on ≡ false) × (timer_runs h'.calls ≡ false)
unfolding timer_called timer_returned handle_rw_error
error_in_reconnect_is_lost h rs t =
    let h' = timer_returned (handle_rw_error (timer_called false h)) in
    let none_on : (h'.connected ≡ false) × (h'.timer_on ≡ false) × (timer_runs h'.calls ≡ false) =
      ground arith in
    rw (open_all_refused rs h' none_on.0) none_on
