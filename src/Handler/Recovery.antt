-- ===== src/Handler/Recovery.antt =====
-- src/DoorSwitchHandler.cpp: the reconnect timer and the connection under all that reaches a handler.
use door_switch_svr.Prelude.{
  ℕ, List, [], ◌∷◌, ◌≡◌, refl, ◌∙◌, sym, subst, inl, inr, Option-cases, Bool, true, false, not,
  ◌||◌, ◌&&◌, Option, none, some, arith, ◌==◌,
}
use door_switch_svr.Prelude.Int.{ℤ}
use door_switch_svr.Param.{SwitchInfo}
use door_switch_svr.Controller.{Controller}
use door_switch_svr.Handler.{
  Handler, new_handler, connect, timer_called, timer_returned, handle_rw_error, open_door, report,
}
use door_switch_svr.Handler.Timer.{timer_runs, Call, timer_restart}
use door_switch_svr.Handler.Event.{
  Event, timer_fires, timer_returns, connects, opens, thread_turns, reads, checks, step, IsStepOf,
  step-related, none-ne-some, is_some,
}

-- `none` is undefined behaviour on the way.
unfoldable pub run : List Event → Handler → Option Handler
run [] h = some h
run (e ∷ es) h = elim (step e h) [ none ↦ none | some h' ↦ run es h' ]

abbrev pub same : Bool → Bool → Bool
same true b = b
same false b = not b

abbrev pub is_connects : Event → Bool
is_connects (connects error) = true
is_connects _ = false

-- What a call of the timer goes on with, if there is one.
abbrev returns_with : Option Bool → Bool → Bool
returns_with none b = b
returns_with (some reached) b = reached

-- An error that falls between the halves of a call of the timer.
abbrev pub loses : Handler → Handler → Bool
loses h h' = is_some h.in_timer && (h.connected && not h'.connected)

-- Whether on the way there is another connect, or such an error.
abbrev pub any_disturbs : List Event → Handler → Bool
any_disturbs [] h = false
any_disturbs (e ∷ es) h = elim (step e h) [
  | none ↦ false
  | some h' ↦ (is_connects e || loses h h') || any_disturbs es h'
]

-- The last call of the handler is the one by which a call of the timer that connected it ends.
abbrev pub has_ended : List Call → Bool
has_ended (timer_restart n ∷ calls) = n == 0
has_ended _ = false

-- `d`: another `connect()` may have been called, or an error may have been lost.
pub record Inv (d : Bool) (h : Handler) : Type 0 where
  pub runs : not h.timer_on || timer_runs h.calls ≡ true
  pub called : not (is_some h.in_timer) || timer_runs h.calls ≡ true
  pub retries : h.connected || (timer_runs h.calls || has_ended h.calls) ≡ true
  pub flag : d || same (timer_runs h.calls) h.timer_on ≡ true
  pub exact : d || (is_some h.in_timer || same h.timer_on (not h.connected)) ≡ true
  pub reached : d || same h.connected (returns_with h.in_timer h.connected) ≡ true

or_true : (b : Bool) → b || true ≡ true
or_true b = ground arith

pub first_connect-Inv :
    (error : Bool) (info : SwitchInfo) → Inv false (connect error (new_handler info)).0
unfolding connect new_handler
first_connect-Inv error info = ground arith

module _ (d : Bool) where
  handle_rw_error-Inv :
      (h : Handler) → Inv d h → Inv (d || loses h (handle_rw_error h)) (handle_rw_error h)
  unfolding handle_rw_error
  handle_rw_error-Inv h i = ground arith

  pub report-Inv :
      (channel : ℕ) (r : Controller × Bool) (h : Handler)
      → Inv d h
      → Inv (d || loses h (report channel r h)) (report channel r h)
  unfolding report
  report-Inv channel r h i = ground arith

  pub timer_called-Inv :
      (error : Bool) (h : Handler)
      → timer_runs h.calls ≡ true
      → h.in_timer ≡ none
      → Inv d h
      → Inv (d || loses h (timer_called error h)) (timer_called error h)
  unfolding timer_called
  timer_called-Inv error h r n i = ground arith

  pub timer_returned-Inv :
      (h : Handler) → Inv d h → Inv (d || loses h (timer_returned h)) (timer_returned h)
  unfolding timer_returned
  timer_returned-Inv h i = ground arith

  pub open_door-Inv :
      (channel close_after : ℤ) (now : ℕ) (h : Handler)
      → Inv d h
      → let h' = (open_door channel close_after now h).0 in Inv (d || loses h h') h'
  unfolding open_door
  open_door-Inv channel close_after now h i = ground arith

  stays-Inv : (h : Handler) → Inv d h → Inv (d || loses h h) h
  stays-Inv h i = ground arith

  pub connect-Inv : (error : Bool) (h : Handler) → Inv d h → Inv true (connect error h).0
  unfolding connect
  connect-Inv error h i = ground arith

  own-Inv : IsStepOf (λ e. is_connects e ≡ false) (λ h h'. Inv d h → Inv (d || loses h h') h')
  own-Inv = record {
    stays = λ h i. stays-Inv h i;
    fires = timer_called-Inv;
    returns = timer_returned-Inv;
    connects = λ error h never i. absurd (cc);
    opens = λ channel close_after now h f i. open_door-Inv channel close_after now h i;
    reports = λ channel c r h found did i. report-Inv channel r h i;
  }

  own_step-Inv :
      (e : Event) (h h' : Handler)
      → step e h ≡ some h'
      → is_connects e ≡ false
      → Inv d h
      → Inv (d || loses h h') h'
  own_step-Inv = step-related _ (λ h h'. Inv d h → Inv (d || loses h h') h') own-Inv

  step-Inv :
      (e : Event) (h h' : Handler)
      → step e h ≡ some h'
      → Inv d h
      → Inv (d || (is_connects e || loses h h')) h'
  step-Inv (connects error) h h' e i = rw (or_true d) (
      subst (Inv true) {x = (connect error h).0} {y = h'} (unfold step in cc)
        (connect-Inv error h i))
  step-Inv (timer_fires error) h h' e i = own_step-Inv (timer_fires error) h h' e refl i
  step-Inv timer_returns h h' e i = own_step-Inv timer_returns h h' e refl i
  step-Inv (opens channel close_after now) h h' e i =
      own_step-Inv (opens channel close_after now) h h' e refl i
  step-Inv (thread_turns channel result now) h h' e i =
      own_step-Inv (thread_turns channel result now) h h' e refl i
  step-Inv (reads channel ec size) h h' e i = own_step-Inv (reads channel ec size) h h' e refl i
  step-Inv (checks channel now) h h' e i = own_step-Inv (checks channel now) h h' e refl i

or_assoc : (b c d : Bool) → (b || c) || d ≡ b || (c || d)
or_assoc b c d = ground arith

or_false : (b : Bool) → b || false ≡ b
or_false b = ground arith

run-Inv :
    (d : Bool) (es : List Event) (h h' : Handler)
    → run es h ≡ some h'
    → Inv d h
    → Inv (d || any_disturbs es h) h'
unfolding run
run-Inv d [] h h' r i = rw (or_false d) (subst (Inv d) {x = h} {y = h'} (cc) i)
run-Inv d (e ∷ es) h h' r i = elim (Option-cases (step e h)) [
  | inl stop ↦ absurd (none-ne-some (sym (rw (stop, run)) ∙ r))
  | inr (g, go) ↦
      rw (go, any_disturbs)
        (subst (λ b. Inv b h') (or_assoc d (is_connects e || loses h g) (any_disturbs es g))
          (run-Inv (d || (is_connects e || loses h g)) es g h' (sym (rw (go, run)) ∙ r)
            (step-Inv d e h g go i)))
]

-- From the first `connect()` on, whatever its result, and after any sequence of further connects,
-- calls of the timer, requests, turns of the doors' threads, replies and timeouts that is defined: the
-- reconnect timer runs if `m_isTimerOn` is set; the switch is connected, or the timer runs, or the
-- last call that was made is the one by which `onReconnTimer` ends the timer. If there was no further
-- connect and no error fell between `reconnect()` in `onReconnTimer` and what follows, the timer
-- runs exactly if `m_isTimerOn` is set, and, but for the time between these, exactly if the switch is
-- not connected.
pub disconnected_retries :
    (error : Bool) (info : SwitchInfo) (es : List Event) (h : Handler)
    → let h0 = (connect error (new_handler info)).0 in
      run es h0 ≡ some h
      → (not h.timer_on || timer_runs h.calls ≡ true)
        × (h.connected || (timer_runs h.calls || has_ended h.calls) ≡ true)
        × (any_disturbs es h0 || same (timer_runs h.calls) h.timer_on ≡ true)
        × (any_disturbs es h0 || (is_some h.in_timer || same h.timer_on (not h.connected)) ≡ true)
disconnected_retries error info es h r =
    let i = run-Inv false es _ h r (first_connect-Inv error info) in
    (i.runs, i.retries, i.flag, i.exact)
