-- ===== src/Handler/Event.antt =====
-- src/DoorSwitchHandler.cpp: what reaches a handler, one event at a time, and what an event keeps.
use door_switch_svr.Prelude.{
  ℕ, ◌≡◌, refl, subst, Bool, true, false, not, ◌&&◌, Bool-cases, inl, inr, Option, none, some,
  arith, if◌then◌else◌,
}
use door_switch_svr.OrderedMap.{key_ℕ, find}
use door_switch_svr.Prelude.Int.{ℤ}
use door_switch_svr.Controller.{Controller, WriteResult, run_turn, read_ret, check_deadline}
use door_switch_svr.Handler.{
  Handler, connect, timer_called, timer_returned, open_door, report, report_turn, turn_found,
  read_found, deadline_found, thread_turn, read_returned, deadline_called,
}
use door_switch_svr.Handler.Timer.{timer_runs}

abbrev pub is_some {ℓ} : {A : Type ℓ} → Option A → Bool
is_some none = false
is_some (some a) = true

-- The timer fires only while it runs, and has one call of `onReconnTimer` under way at most.
pub data Event : Type 0 where
  timer_fires : Bool → Event
  timer_returns : Event
  connects : Bool → Event
  opens : ℤ → ℤ → ℕ → Event
  thread_turns : ℕ → WriteResult → ℕ → Event
  reads : ℕ → Bool → ℕ → Event
  checks : ℕ → ℕ → Event

unfoldable pub step : Event → Handler → Option Handler
step (timer_fires error) h =
    some (if timer_runs h.calls && not (is_some h.in_timer) then timer_called error h else h)
step timer_returns h = some (timer_returned h)
step (connects error) h = some (connect error h).0
step (opens channel close_after now) h = some (open_door channel close_after now h).0
step (thread_turns channel result now) h = thread_turn channel result now h
step (reads channel ec size) h = some (read_returned channel ec size h)
step (checks channel now) h = some (deadline_called channel now h)

pub none-ne-some {ℓ} : {A : Type ℓ} {a : A} → none ≡ some a → ⊥
none-ne-some e = cc

-- What a controller of the handler may have done.
pub data Did (h : Handler) (c : Controller) : Controller × Bool → Type 0 where
  turned :
      (result : WriteResult) (now : ℕ) (r : Controller × Bool)
      → run_turn h.switch_info.type result now c ≡ some r
      → Did h c r
  read : (ec : Bool) (size : ℕ) → Did h c (read_ret ec size c)
  checked : (now : ℕ) → Did h c (check_deadline now c)

-- A relation that the two halves of a call of the timer, the report of what a door did, a connect and a
-- request stay in is one that every event stays in.
pub record IsStepOf (Fair : Event → Type 0) (Q : Handler → Handler → Type 0) : Type 0 where
  pub stays : (h : Handler) → Q h h
  pub fires :
      (error : Bool) (h : Handler)
      → timer_runs h.calls ≡ true
      → h.in_timer ≡ none
      → Q h (timer_called error h)
  pub returns : (h : Handler) → Q h (timer_returned h)
  pub connects : (error : Bool) (h : Handler) → Fair (connects error) → Q h (connect error h).0
  pub opens :
      (channel close_after : ℤ) (now : ℕ) (h : Handler)
      → Fair (opens channel close_after now)
      → Q h (open_door channel close_after now h).0
  pub reports :
      (channel : ℕ) (c : Controller) (r : Controller × Bool) (h : Handler)
      → find channel h.controllers ≡ some c
      → Did h c r
      → Q h (report channel r h)

module _ (Fair : Event → Type 0) (Q : Handler → Handler → Type 0) (k : IsStepOf Fair Q) where
  Q-some : (h g h' : Handler) → some g ≡ some h' → Q h g → Q h h'
  Q-some h g h' e p = subst (Q h) {x = g} {y = h'} (cc) p

  turn-related :
      (channel : ℕ) (c : Controller) (o : Option (Controller × Bool)) (h h' : Handler)
      → find channel h.controllers ≡ some c
      → report_turn channel o h ≡ some h'
      → ((r : Controller × Bool) → o ≡ some r → Did h c r)
      → Q h h'
  unfolding report_turn
  turn-related channel c none h h' found e d = absurd (none-ne-some e)
  turn-related channel c (some r) h h' found e d =
      Q-some h _ h' e (k.reports channel c r h found (d r refl))

  turn_found-related :
      (channel : ℕ) (result : WriteResult) (now : ℕ) (o : Option Controller) (h h' : Handler)
      → find channel h.controllers ≡ o
      → turn_found channel result now o h ≡ some h'
      → Q h h'
  unfolding turn_found
  turn_found-related channel result now none h h' found e = Q-some h _ h' e (k.stays h)
  turn_found-related channel result now (some c) h h' found e =
      turn-related channel c (run_turn h.switch_info.type result now c) h h' found e
        (turned result now)

  read_found-related :
      (channel : ℕ) (ec : Bool) (size : ℕ) (o : Option Controller) (h : Handler)
      → find channel h.controllers ≡ o
      → Q h (read_found channel ec size o h)
  unfolding read_found
  read_found-related channel ec size none h found = k.stays h
  read_found-related channel ec size (some c) h found =
      k.reports channel c (read_ret ec size c) h found (read ec size)

  deadline_found-related :
      (channel now : ℕ) (o : Option Controller) (h : Handler)
      → find channel h.controllers ≡ o
      → Q h (deadline_found channel now o h)
  unfolding deadline_found
  deadline_found-related channel now none h found = k.stays h
  deadline_found-related channel now (some c) h found =
      k.reports channel c (check_deadline now c) h found (checked now)

  timer-related :
      (error : Bool) (h : Handler)
      → Q h (if timer_runs h.calls && not (is_some h.in_timer) then timer_called error h else h)
  timer-related error h = elim (Bool-cases (timer_runs h.calls && not (is_some h.in_timer))) [
    | inl fires ↦
        let (runs, idle) = may_fire (timer_runs h.calls) h.in_timer fires in
        rw fires (k.fires error h runs idle)
    | inr still ↦ rw still (k.stays h)
  ]
    where
      may_fire :
          (b : Bool) (o : Option Bool) → b && not (is_some o) ≡ true → (b ≡ true) × (o ≡ none)
      may_fire b o e = ground arith

  pub step-related : (e : Event) (h h' : Handler) → step e h ≡ some h' → Fair e → Q h h'
  unfolding step thread_turn read_returned deadline_called
  step-related (timer_fires error) h h' e f = Q-some h _ h' e (timer-related error h)
  step-related timer_returns h h' e f = Q-some h _ h' e (k.returns h)
  step-related (Event.connects error) h h' e f = Q-some h _ h' e (k.connects error h f)
  step-related (Event.opens channel close_after now) h h' e f =
      Q-some h _ h' e (k.opens channel close_after now h f)
  step-related (thread_turns channel result now) h h' e f =
      turn_found-related channel result now (find channel h.controllers) h h' refl e
  step-related (reads channel ec size) h h' e f =
      Q-some h _ h' e (read_found-related channel ec size (find channel h.controllers) h refl)
  step-related (checks channel now) h h' e f =
      Q-some h _ h' e (deadline_found-related channel now (find channel h.controllers) h refl)

-- A property that these keep is kept by every event.
pub record IsKeptBy (Fair : Event → Type 0) (P : Handler → Type 0) : Type 0 where
  pub fires :
      (error : Bool) (h : Handler)
      → timer_runs h.calls ≡ true
      → h.in_timer ≡ none
      → P h
      → P (timer_called error h)
  pub returns : (h : Handler) → P h → P (timer_returned h)
  pub connects : (error : Bool) (h : Handler) → Fair (connects error) → P h → P (connect error h).0
  pub opens :
      (channel close_after : ℤ) (now : ℕ) (h : Handler)
      → Fair (opens channel close_after now)
      → P h
      → P (open_door channel close_after now h).0
  pub reports :
      (channel : ℕ) (c : Controller) (r : Controller × Bool) (h : Handler)
      → find channel h.controllers ≡ some c
      → Did h c r
      → P h
      → P (report channel r h)

pub step-kept :
    (Fair : Event → Type 0) (P : Handler → Type 0)
    → IsKeptBy Fair P
    → (e : Event) (h h' : Handler) → step e h ≡ some h'
    → Fair e
    → P h
    → P h'
step-kept Fair P k =
    step-related Fair (λ h h'. P h → P h')
      (record {
        stays = λ h p. p;
        fires = k.fires;
        returns = k.returns;
        connects = k.connects;
        opens = k.opens;
        reports = k.reports;
      })
