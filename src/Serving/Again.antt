-- ===== src/Serving/Again.antt =====
-- A message for a door that has been opened before, whose thread waits for its next task.
use door_switch_svr.Prelude.{
  ℕ, ◌+◌, ◌<◌, inr, ◌≤◌, List, [], ◌∷◌, ◌++◌, ◌≡◌, refl, ◌∙◌, ap, subst, ◌⊎◌, inl, false, Option,
  none, some, arith,
}
use door_switch_svr.Prelude.Int.{ℤ, pos, leb_ℤ}
use door_switch_svr.OrderedMap.{key_ℕ, key_text}
use door_switch_svr.Param.{
  Text, SwitchType, indirect_control_switch, direct_control_switch, unnamed_switch,
}
use door_switch_svr.Controller.{WriteResult}
use door_switch_svr.Controller.Written.{IsWritten}
use door_switch_svr.Controller.Run.{
  Notification, Pc, Worker, Request, opening, closing, at_top, before_wait, blocked,
  sleeping_indirect, sleeping_direct, turn, overflows, real_wait,
}
use door_switch_svr.Controller.Run.Deadline.{fresh-calm}
use door_switch_svr.Serving.{Server, sent_by}
use door_switch_svr.Serving.Turns.{HasDoor, AreCalm, run_door, run_door-thread}
use door_switch_svr.Serving.Online.{IsOnline, run_door-IsOnline}
use door_switch_svr.Serving.Opens.{command_to}

-- The thread waits, or is about to, with these tasks before it.
abbrev pub waiting_worker : List Notification → Pc → Worker
waiting_worker tasks pc = record { tasks = tasks; stop = false; noti_in_q = false; pc = pc }

abbrev pub IsWait : Pc → Type 0
IsWait pc = (pc ≡ before_wait) ⊎ (pc ≡ blocked)

-- The switch is connected, and the door's thread waits for a task.
pub record IsServing (k : Text) (c : ℕ) (type : SwitchType) (s : Server) : Type 0 where
  pub pc : Pc
  pub waits : IsWait pc
  pub has : HasDoor k c c type (waiting_worker [] pc) s
  pub online : IsOnline k s

sleep_pc : SwitchType → ℤ → Pc
sleep_pc indirect_control_switch wait = sleeping_indirect wait
sleep_pc direct_control_switch wait = sleeping_direct wait
sleep_pc (unnamed_switch n) wait = sleeping_direct wait

-- The thread with one task: it opens the door and sleeps, closes it, and waits again.
module _ (type : SwitchType) (task : Notification) (t1 t2 t3 : ℕ)
    (fresh : leb_ℤ (real_wait t1 task) (pos 0) ≡ false) where
  pub asleep : Worker
  asleep = waiting_worker [] (sleep_pc type (real_wait t1 task))

  pub turn_opens :
      (pc : Pc) → IsWait pc → turn type t1 (waiting_worker (task ∷ []) pc) ≡ (asleep, some opening)
  unfolding turn asleep sleep_pc
  turn_opens pc w = ground arith

  turn_closes : turn type t2 asleep ≡ (waiting_worker [] at_top, some closing)
  unfolding turn asleep sleep_pc
  turn_closes = ground arith

  turn_waits : turn type t3 (waiting_worker [] at_top) ≡ (waiting_worker [] before_wait, none)
  unfolding turn
  turn_waits = refl

-- The results and the times of the three turns of the thread for one task: the writes are complete.
pub record Turns : Type 0 where
  pub r1 : WriteResult
  pub r2 : WriteResult
  pub r3 : WriteResult
  pub t1 : ℕ
  pub t2 : ℕ
  pub t3 : ℕ

abbrev pub first_turn : Turns → List (WriteResult × ℕ)
first_turn x = (x.r1, x.t1) ∷ []

abbrev pub last_turns : Turns → List (WriteResult × ℕ)
last_turns x = (x.r2, x.t2) ∷ (x.r3, x.t3) ∷ []

abbrev pub AreWritten : Turns → Type 0
AreWritten x = IsWritten x.r1 × IsWritten x.r2 × IsWritten x.r3

-- A door with one task before its thread, in the server.
module _ (k : Text) (c : ℕ) (type : SwitchType) (task : Notification) (s : Server) (lower : 1 ≤ c)
    (upper : c ≤ 15) (pc : Pc) (waits : IsWait pc)
    (has : HasDoor k c c type (waiting_worker (task ∷ []) pc) s) (online : IsOnline k s) (x : Turns)
    (written : AreWritten x) (fresh : leb_ℤ (real_wait x.t1 task) (pos 0) ≡ false)
    (fits : x.t1 < task.started + 2147483648000) where
  opening-AreCalm : AreCalm type (first_turn x) (waiting_worker (task ∷ []) pc)
  unfolding overflows
  opening-AreCalm = elim waits [
    | inl before ↦ (rw before (fresh-calm x.t1 task fits fresh), tt)
    | inr inside ↦ (rw inside (fresh-calm x.t1 task fits fresh), tt)
  ]

  closing-AreCalm : AreCalm type (last_turns x) (asleep type task x.t1 x.t2 x.t3 fresh)
  unfolding overflows turn asleep sleep_pc
  closing-AreCalm = (ground arith, (ground arith, tt))

  pub task_opens :
      (s1 : Server) × (run_door k c (first_turn x) s ≡ some s1)
      × HasDoor k c c type (asleep type task x.t1 x.t2 x.t3 fresh) s1
      × (s1.sent ≡ command_to k c opening ∷ s.sent)
      × IsOnline k s1
  unfolding sent_by
  task_opens =
      let (s1, ran, has1, sent) =
        run_door-thread k c c type lower upper (first_turn x) (waiting_worker (task ∷ []) pc) s
          opening-AreCalm has in
      let first = turn_opens type task x.t1 x.t2 x.t3 fresh pc waits in
      (
        s1,
        ran,
        subst (λ (r : Worker × Option Request). HasDoor k c c type r.0 s1) first has1,
        sent ∙ ap (λ (r : Worker × Option Request). sent_by k c r.1 ++ s.sent) first,
        run_door-IsOnline k c (first_turn x) s s1 (written.0, tt) ran online,
      )

  pub task_closes :
      (s1 : Server)
      → HasDoor k c c type (asleep type task x.t1 x.t2 x.t3 fresh) s1
      → IsOnline k s1
      → (s2 : Server) × (run_door k c (last_turns x) s1 ≡ some s2)
        × (s2.sent ≡ command_to k c closing ∷ s1.sent)
        × IsServing k c type s2
  unfolding sent_by
  task_closes s1 has1 online1 =
      let w = asleep type task x.t1 x.t2 x.t3 fresh in
      let (s2, ran, has2, sent) =
        run_door-thread k c c type lower upper (last_turns x) w s1 closing-AreCalm has1 in
      let closes = turn_closes type task x.t1 x.t2 x.t3 fresh in
      let waits' = turn_waits type task x.t1 x.t2 x.t3 fresh in
      (
        s2,
        ran,
        sent
            ∙ ap
                (λ (r : Worker × Option Request).
                  sent_by k c (turn type x.t3 r.0).1 ++ (sent_by k c r.1 ++ s1.sent))
                closes
            ∙ ap
                (λ (r : Worker × Option Request).
                  sent_by k c r.1 ++ (command_to k c closing ∷ s1.sent))
                waits',
        record {
          pc = before_wait;
          waits = inl refl;
          has =
              subst (λ (r : Worker × Option Request). HasDoor k c c type r.0 s2) waits'
                (subst
                  (λ (r : Worker × Option Request). HasDoor k c c type (turn type x.t3 r.0).0 s2)
                  closes has2);
          online =
              run_door-IsOnline k c (last_turns x) s1 s2 (written.1, (written.2, tt)) ran online1;
        },
      )
