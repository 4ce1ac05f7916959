-- ===== src/Handler/Backoff.antt =====
-- src/DoorSwitchHandler.cpp, onReconnTimer: how long the timer waits under failed attempts.
use Prim.Native.Nat.{min}
use native.Mathlib.Nat.{pow-le-pow_right, pow-suc}
use native.Mathlib.Decide.{dec_lt}
use door_switch_svr.Prelude.{
  ℕ, zero, suc, ◌+◌, ◌*◌, ◌^◌, ◌≤◌, ◌≡◌, refl, ◌∙◌, ap, true, none, some, arith, ltb, if◌then◌else◌,
}
use door_switch_svr.Param.{s2ms, reconn_start_interval}
use door_switch_svr.Handler.{
  Handler, start_reconnect_timer, on_reconn_timer, timer_returned, end_call,
}
use door_switch_svr.Handler.Timer.{start_interval, next_wait}

-- `k` attempts in a row that fail.
unfoldable pub fail_times : ℕ → Handler → Handler
fail_times zero h = h
fail_times (suc k) h = on_reconn_timer true (fail_times k h)

min_below : (k : ℕ) → k ≤ 8 → min k 8 ≡ k
min_below k h = omega arith

min_above : (k : ℕ) → 8 ≤ k → min k 8 ≡ 8
min_above k h = omega arith

abbrev next : ℕ → ℕ
next i = if ltb (i * 2) 257 then i * 2 else i

suc_add_one : (k : ℕ) → suc k + 1 ≡ suc (k + 1)
suc_add_one k = omega arith

next-power : (k : ℕ) → next (2 ^ min (k + 1) 8) ≡ 2 ^ min (suc k + 1) 8
next-power k = elim (dec_lt k 7) [
  | yes small ↦
      let bound = pow-le-pow_right {n = 2} (omega arith) {i = k + 1} {j = 7} (omega arith) in
      let twice : 2 ^ (suc k + 1) ≡ 2 ^ (k + 1) * 2 = rw (suc_add_one k) (rw pow-suc) in
      rw (min_below (k + 1) (omega arith), min_below (suc k + 1) (omega arith), twice)
        (ground (arith, bound))
  | no large ↦ rw (min_above (k + 1) (omega arith), min_above (suc k + 1) (omega arith)) refl
]

step-interval :
    (k : ℕ) (h : Handler)
    → h.interval ≡ 2 ^ min (k + 1) 8
    → (on_reconn_timer true h).interval ≡ 2 ^ min (suc k + 1) 8
unfolding on_reconn_timer
step-interval k h w = next_of k h.interval w
  where
    next_of : (k i : ℕ) → i ≡ 2 ^ min (k + 1) 8 → next i ≡ 2 ^ min (suc k + 1) 8
    next_of k i e = rw e (next-power k)

fail_times-interval :
    (k : ℕ) (h : Handler)
    → h.in_timer ≡ none
    → (fail_times k (start_reconnect_timer h)).interval ≡ 2 ^ min (k + 1) 8
unfolding fail_times
fail_times-interval zero h idle = unfold start_reconnect_timer in ground arith
fail_times-interval (suc k) h idle = step-interval k _ (fail_times-interval k h idle)

start-wait :
    (h : Handler)
    → h.in_timer ≡ none
    → start_interval h.calls ≡ some reconn_start_interval
    → next_wait (start_reconnect_timer h).calls ≡ some 256
unfolding start_reconnect_timer timer_returned
start-wait h idle made = rw (idle, end_call) made

-- A failed attempt leaves the timer to wait for the handler's interval.
failed-wait :
    (h : Handler)
    → let h' = on_reconn_timer true h in next_wait h'.calls ≡ some (h'.interval * s2ms)
unfolding on_reconn_timer
failed-wait h = refl

-- Let the timer be started while no call of it is under way, with the start interval of 256
-- milliseconds that the constructor gives it. The first attempt to reconnect comes after this
-- start interval; and after `k + 1` failed attempts in a row the next one comes after
-- 2^min(k + 2, 8) seconds, so that the waits are 256 milliseconds, and then 4, 8, 16, and so on, up to
-- 256 seconds.
pub backoff_doubles :
    (k : ℕ) (h : Handler)
    → h.in_timer ≡ none
    → start_interval h.calls ≡ some reconn_start_interval
    → (next_wait (start_reconnect_timer h).calls ≡ some 256)
      × (next_wait (fail_times (suc k) (start_reconnect_timer h)).calls
          ≡ some (1000 * 2 ^ min (k + 2) 8))
unfolding fail_times
backoff_doubles k h idle made =
    let h' = fail_times k (start_reconnect_timer h) in
    let i = (on_reconn_timer true h').interval in
    let doubled : i ≡ 2 ^ min (suc k + 1) 8 = step-interval k h' (fail_times-interval k h idle) in
    let exponent : suc k + 1 ≡ k + 2 = omega arith in
    let wait : i * s2ms ≡ 1000 * 2 ^ min (k + 2) 8 = rw (doubled, exponent) (omega arith) in
    (start-wait h idle made, failed-wait h' ∙ ap some wait)
