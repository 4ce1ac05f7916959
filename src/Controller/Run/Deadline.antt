-- ===== src/Controller/Run/Deadline.antt =====
-- When a door closes: the wait of the thread against the time that the request gives.
use native.Mathlib.Decide.{dec_lt}
use door_switch_svr.Prelude.{
  ℕ, ◌+◌, ◌-◌, ◌*◌, ◌/◌, ◌≤◌, ◌<◌, ◌≡◌, ◌∙◌, ap, ◌⊎◌, inl, inr, List, ◌∷◌, true, false, none, arith,
}
use door_switch_svr.Prelude.Int.{pos, ◌-ℤ◌, leb_ℤ}
use door_switch_svr.Param.{SwitchType, micro2ms}
use door_switch_svr.Controller.Run.{
  Notification, Pc, Worker, before_wait, at_top, sleeping_indirect, sleeping_direct, blocked, turn,
  real_wait, get_elapsed, wait_overflows,
}

abbrev pub elapsed_ms : ℕ → Notification → ℕ
elapsed_ms now n = (now - n.started) / micro2ms

elapsed-fits :
    (now : ℕ) (n : Notification)
    → now < n.started + 2147483648000
    → get_elapsed now n ≡ pos (elapsed_ms now n)
unfolding get_elapsed
elapsed-fits now n h = ground arith

-- A task in time: the subtraction does not overflow.
pub fresh-calm :
    (now : ℕ) (n : Notification)
    → now < n.started + 2147483648000
    → leb_ℤ (real_wait now n) (pos 0) ≡ false
    → wait_overflows now n ≡ false
unfolding wait_overflows
fresh-calm now n soon fresh = rw (elapsed-fits now n soon) (ground arith)

-- A task in time: the thread takes it and sleeps.
begins_sleep :
    (now : ℕ) (n : Notification) (type : SwitchType) (rest : List Notification) (w : Worker)
    → (w.pc ≡ before_wait) ⊎ (w.pc ≡ blocked)
    → w.tasks ≡ n ∷ rest
    → leb_ℤ (real_wait now n) (pos 0) ≡ false
    → let w' = (turn type now w).0 in
      (w'.tasks ≡ rest)
      × ((w'.pc ≡ sleeping_indirect (real_wait now n))
          ⊎ (w'.pc ≡ sleeping_direct (real_wait now n)))
unfolding turn
begins_sleep now n type rest w at first fresh = ground arith

-- The thread sleeps, and wakes between `due` and a millisecond later.
abbrev pub SleepsUntil : ℕ → ℕ → Pc → Type 0
SleepsUntil due now pc =
    (wait : ℕ) × ((pc ≡ sleeping_indirect (pos wait)) ⊎ (pc ≡ sleeping_direct (pos wait)))
    × (due ≤ now + 1000 * wait)
    × (now + 1000 * wait < due + 1000)

module _ (now : ℕ) (n : Notification) (c : ℕ) (given : n.close_after_ms ≡ pos c)
    (later : n.started ≤ now) (soon : now < n.started + 2147483648000) where
  wait_left : real_wait now n ≡ pos c -ℤ pos (elapsed_ms now n)
  unfolding real_wait
  wait_left = rw (given, elapsed-fits now n soon)

  pub wait-cases :
      ((n.started + 1000 * c ≤ now) × (leb_ℤ (real_wait now n) (pos 0) ≡ true))
      ⊎ ((wait : ℕ) × (real_wait now n ≡ pos wait)
          × (leb_ℤ (real_wait now n) (pos 0) ≡ false)
          × (now < n.started + 1000 * c)
          × (n.started + 1000 * c ≤ now + 1000 * wait)
          × (now + 1000 * wait < n.started + 1000 * c + 1000))
  unfolding ◌-ℤ◌
  wait-cases = elim (dec_lt now (n.started + 1000 * c)) [
    | yes l ↦ inr (
      c - elapsed_ms now n,
      wait_left ∙ ground arith,
      rw wait_left (ground arith),
      l,
      omega arith,
      omega arith,
    )
    | no g ↦ inl (omega arith, rw wait_left (ground arith))
  ]

  -- A thread that takes a task with a time to close that is not negative, less than 2^31 ms after
  -- the task came: if the task's time has run out, the thread sends nothing and goes on to the
  -- next task; otherwise it sleeps, and its sleep ends when the time has run out, at most a
  -- millisecond later.
  pub task_meets_deadline :
      (type : SwitchType) (rest : List Notification) (w : Worker)
      → (w.pc ≡ before_wait) ⊎ (w.pc ≡ blocked)
      → w.tasks ≡ n ∷ rest
      → let due = n.started + 1000 * c in
        let (w', request) = turn type now w in
        (w'.tasks ≡ rest)
        × (((due ≤ now) × (request ≡ none) × (w'.pc ≡ at_top))
            ⊎ ((now < due) × SleepsUntil due now w'.pc))
  unfolding turn
  task_meets_deadline type rest w at first = elim wait-cases [
    | inl (late, expired) ↦ ground (arith, late, expired)
    | inr (wait, left, fresh, early, lower, upper) ↦
        let (same, sleeps) = begins_sleep now n type rest w at first fresh in
        (same, inr (early, (wait, by_pc (turn type now w).0.pc wait left sleeps, lower, upper)))
  ]
    where
      by_pc :
          (pc : Pc) (wait : ℕ)
          → real_wait now n ≡ pos wait
          → (pc ≡ sleeping_indirect (real_wait now n)) ⊎ (pc ≡ sleeping_direct (real_wait now n))
          → (pc ≡ sleeping_indirect (pos wait)) ⊎ (pc ≡ sleeping_direct (pos wait))
      by_pc pc wait left (inl q) = inl (q ∙ ap sleeping_indirect left)
      by_pc pc wait left (inr q) = inr (q ∙ ap sleeping_direct left)
