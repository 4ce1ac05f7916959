-- ===== src/Controller/Run/Expiry.antt =====
-- Tasks of a direct relay that expire in the queue: what `bNotiInQ` says afterwards, and the relay.
use door_switch_svr.Prelude.{ℕ, List, [], ◌∷◌, ◌≡◌, refl, ◌∙◌, true, false, arith}
use door_switch_svr.Param.{SwitchType}
use door_switch_svr.Controller.Run.{Notification, sleeping_direct, real_wait}
use door_switch_svr.Controller.Run.Schedule.{
  turns, adds, System, step, run, is_sleeping, started, turns_at,
}
use door_switch_svr.Controller.Run.Direct.{is_indirect, first_expired}

-- The thread has nothing to do.
record Idle (s : System) : Type 0 where
  awake : is_sleeping s.worker.pc ≡ false
  no_task : s.worker.tasks ≡ []
  on : s.worker.stop ≡ false

step-Idle :
    (type : SwitchType) (t : ℕ) (s : System)
    → Idle s
    → Idle (step type (turns t) s) × ((step type (turns t) s).door ≡ s.door)
unfolding step
step-Idle type t s h = ground arith

run-Idle :
    (type : SwitchType) (ts : List ℕ) (s : System)
    → Idle s
    → (run type (turns_at ts) s).door ≡ s.door
unfolding run
run-Idle type [] s h = refl
run-Idle type (t ∷ ts) s h =
    let (h', e) = step-Idle type t s h in run-Idle type ts (step type (turns t) s) h' ∙ e

module _ (type : SwitchType) (direct : is_indirect type ≡ false) (a b : Notification)
    (t0 t1 t2 t3 t4 : ℕ) where
  open_and_nothing_left :
      first_expired t1 (a ∷ []) ≡ false
      → first_expired t4 (b ∷ []) ≡ true
      → let s =
          run type
            (adds a ∷ turns t0 ∷ turns t1 ∷ adds b ∷ turns t2 ∷ turns t3 ∷ turns t4 ∷ [])
            started in
        Idle s × (s.door ≡ true)
  unfolding run step started
  open_and_nothing_left fresh late = ground arith

  -- The code leaves the door open: on a direct relay a task opens it, and a second task arrives
  -- during the sleep and has expired when its turn comes. The relay is not closed, however many
  -- turns the thread gets.
  pub expired_leaves_open :
      first_expired t1 (a ∷ []) ≡ false
      → first_expired t4 (b ∷ []) ≡ true
      → (ts : List ℕ)
      → (run type
          (adds a ∷ turns t0 ∷ turns t1 ∷ adds b ∷ turns t2 ∷ turns t3 ∷ turns t4 ∷ turns_at ts)
          started).door
        ≡ true
  unfolding run
  expired_leaves_open fresh late ts =
      let (idle, open_door) = open_and_nothing_left fresh late in
      run-Idle type ts _ idle ∙ open_door

  -- The code does not open the door: on a direct relay a task expires while a second one is behind
  -- it, and the second one, in time, sleeps its time with the relay closed.
  pub expired_skips_open :
      first_expired t1 (a ∷ []) ≡ true
      → first_expired t3 (b ∷ []) ≡ false
      → let s =
          run type (adds a ∷ adds b ∷ turns t0 ∷ turns t1 ∷ turns t2 ∷ turns t3 ∷ []) started in
        (s.worker.pc ≡ sleeping_direct (real_wait t3 b)) × (s.door ≡ false)
  unfolding run step started
  expired_skips_open late fresh = ground arith
