-- ===== src/Serving/Online.antt =====
-- A switch stays connected while the writes of a door's thread succeed.
use door_switch_svr.Prelude.{
  ℕ, List, [], ◌∷◌, ◌≡◌, refl, sym, ◌∙◌, subst, true, Option, none, some, Option-cases, All, inl,
  inr,
}
use door_switch_svr.OrderedMap.{key_ℕ, key_text, find}
use door_switch_svr.OrderedMap.Laws.{find-adjust_self}
use door_switch_svr.Param.{Text}
use door_switch_svr.Controller.{WriteResult}
use door_switch_svr.Controller.Written.{IsWritten}
use door_switch_svr.Handler.{Handler, thread_turn}
use door_switch_svr.Handler.Written.{thread_turn-connected}
use door_switch_svr.Handler.Event.{thread_turns, step, none-ne-some}
use door_switch_svr.Serving.{Server, act, act_on, act_found, act_moved}
use door_switch_svr.Serving.Turns.{run_door}

-- The switch has a handler that is connected.
abbrev pub IsOnline : Text → Server → Type 0
IsOnline k s = (h : Handler) × (find k s.engine.handlers ≡ some h) × (h.connected ≡ true)

act_moved-IsOnline :
    (k : Text) (n : ℕ) (result : WriteResult) (now : ℕ) (h : Handler) (o : Option Handler)
    (s s' : Server)
    → IsWritten result
    → find k s.engine.handlers ≡ some h
    → h.connected ≡ true
    → thread_turn n result now h ≡ o
    → act_moved k (thread_turns n result now) h o s ≡ some s'
    → IsOnline k s'
unfolding act_moved act
act_moved-IsOnline k n result now h none s s' w at on turned e = absurd (none-ne-some e)
act_moved-IsOnline k n result now h (some h') s s' w at on turned e =
    let t : Server = act k (thread_turns n result now) h h' s in
    subst (IsOnline k) {x = t} {y = s'} (cc) (
      h',
      find-adjust_self k (λ _. h') s.engine.handlers h at,
      thread_turn-connected n result now w h h' turned ∙ on,
    )

act_on-IsOnline :
    (k : Text) (n : ℕ) (result : WriteResult) (now : ℕ) (s s' : Server)
    → IsWritten result
    → act_on k (thread_turns n result now) s ≡ some s'
    → IsOnline k s
    → IsOnline k s'
unfolding act_on act_found step
act_on-IsOnline k n result now s s' w e (h, at, on) =
    act_moved-IsOnline k n result now h (thread_turn n result now h) s s' w at on refl
      (sym (rw (at, act_found)) ∙ e)

pub run_door-IsOnline :
    (k : Text) (n : ℕ) (ts : List (WriteResult × ℕ)) (s s' : Server)
    → All (λ (t : WriteResult × ℕ). IsWritten t.0) ts
    → run_door k n ts s ≡ some s'
    → IsOnline k s
    → IsOnline k s'
unfolding run_door
run_door-IsOnline k n [] s s' w e o = subst (IsOnline k) {x = s} {y = s'} (cc) o
run_door-IsOnline k n ((result, now) ∷ ts) s s' w e o =
    elim (Option-cases (act_on k (thread_turns n result now) s)) [
      | inl stuck ↦ absurd (none-ne-some (sym (rw (run_door, stuck)) ∙ e))
      | inr (s1, one) ↦
          run_door-IsOnline k n ts s1 s' w.1 (sym (rw (run_door, one)) ∙ e)
            (act_on-IsOnline k n result now s s1 w.0 one o)
    ]
