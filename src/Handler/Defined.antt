-- ===== src/Handler/Defined.antt =====
-- When a turn of a door's thread is defined, on a handler whose doors are sound.
use door_switch_svr.Prelude.{
  ℕ, ◌≤◌, ◌≡◌, refl, ◌⊎◌, inl, inr, true, false, Bool, arith, Option, none, some,
}
use door_switch_svr.OrderedMap.{key_ℕ, find, adjust}
use door_switch_svr.OrderedMap.Laws.{find-adjust_self}
use door_switch_svr.OrderedMap.Every.{All-find}
use door_switch_svr.Controller.{Controller, WriteResult, run_turn}
use door_switch_svr.Controller.Defined.{run_turn-some}
use door_switch_svr.Controller.Kept.{unstarted-silent}
use door_switch_svr.Controller.Run.{turn, overflows}
use door_switch_svr.Handler.{Handler, thread_turn, turn_found, report_turn, report, handle_rw_error}
use door_switch_svr.Handler.Sound.{IsSound, IsSoundDoor, IsSoundEntry}

module _ (Q : ℕ → Type 0) (channel : ℕ) (now : ℕ) (h : Handler) (s : IsSound Q h) where
  door-IsSound : (c : Controller) → find channel h.controllers ≡ some c → IsSoundDoor Q c
  door-IsSound c at = All-find (IsSoundEntry Q) channel c h.controllers at s

  -- A door's thread that sends a command is that of a controller with its callback.
  pub sender-has_callback :
      (c : Controller)
      → find channel h.controllers ≡ some c
      → ((turn h.switch_info.type now c.worker).1 ≡ none) ⊎ ((c.has_callback ≡ true) × Q c.channel)
  sender-has_callback c at = elim (door-IsSound c at) [
    | inl n ↦ inl (unstarted-silent h.switch_info.type now c.worker n)
    | inr ready ↦ inr ready
  ]

  turn_found-some :
      (small : (c : ℕ) → Q c → (1 ≤ c) × (c ≤ 15))
      (calm : (c : Controller)
        → find channel h.controllers ≡ some c
        → overflows now c.worker ≡ false)
      (result : WriteResult) (o : Option Controller)
      → find channel h.controllers ≡ o
      → (h' : Handler) × (turn_found channel result now o h ≡ some h')
  unfolding turn_found report_turn
  turn_found-some small calm result none at = (h, refl)
  turn_found-some small calm result (some c) at =
      let in_range : ((turn h.switch_info.type now c.worker).1 ≡ none)
          ⊎ ((1 ≤ c.channel) × (c.channel ≤ 15)) =
        elim (sender-has_callback c at) [
          | inl silent ↦ inl silent
          | inr (callback, q) ↦ inr (small c.channel q)
        ] in
      let (r, made) = run_turn-some h.switch_info.type result now c (calm c at) in_range in
      rw made (report channel r h, refl)

  pub thread_turn-some :
      ((c : ℕ) → Q c → (1 ≤ c) × (c ≤ 15))
      → ((c : Controller) → find channel h.controllers ≡ some c → overflows now c.worker ≡ false)
      → (result : WriteResult) → (h' : Handler) × (thread_turn channel result now h ≡ some h')
  unfolding thread_turn
  thread_turn-some small calm result =
      turn_found-some small calm result (find channel h.controllers) refl

handle_rw_error-door :
    (h : Handler)
    → ((handle_rw_error h).controllers ≡ h.controllers)
      × ((handle_rw_error h).switch_info ≡ h.switch_info)
unfolding handle_rw_error
handle_rw_error-door h = ground arith

report-door :
    (n : ℕ) (d d' : Controller) (raised : Bool) (h : Handler)
    → find n h.controllers ≡ some d
    → let h' = report n (d', raised) h in
      (find n h'.controllers ≡ some d') × (h'.switch_info ≡ h.switch_info)
unfolding report
report-door n d d' raised h at =
    let h' : Handler = record h { controllers = adjust n (λ _. d') h.controllers } in
    let (same, info) = handle_rw_error-door h' in
    let at' : find n h'.controllers ≡ some d' = find-adjust_self n (λ _. d') h.controllers d at in
    ground (arith, at', same, info)

-- A defined turn of a door's thread puts back what the controller became.
pub thread_turn-door :
    (n : ℕ) (result : WriteResult) (now : ℕ) (h : Handler) (d d' : Controller) (raised : Bool)
    → find n h.controllers ≡ some d
    → run_turn h.switch_info.type result now d ≡ some (d', raised)
    → (h' : Handler) × (thread_turn n result now h ≡ some h')
      × (find n h'.controllers ≡ some d')
      × (h'.switch_info ≡ h.switch_info)
unfolding thread_turn turn_found report_turn
thread_turn-door n result now h d d' raised at made =
    let (at', info) = report-door n d d' raised h at in
    (report n (d', raised) h, rw (at, turn_found, made), at', info)
