-- ===== src/Handler/Alive.antt =====
-- A handler that has been connected or is as it was made, under every event.
use door_switch_svr.Prelude.{
  ℕ, ◌≡◌, refl, sym, ◌∙◌, ap, subst, ◌⊎◌, inl, inr, Bool, true, false, none, some, arith,
}
use door_switch_svr.Prelude.Int.{ℤ}
use door_switch_svr.OrderedMap.{key_ℕ, find}
use door_switch_svr.Param.{SwitchInfo}
use door_switch_svr.Controller.{Controller}
use door_switch_svr.Handler.{
  Handler, new_handler, connect, open_door, timer_called, timer_returned, report,
}
use door_switch_svr.Handler.Timer.{timer_runs}
use door_switch_svr.Handler.Event.{IsKeptBy, none-ne-some}
use door_switch_svr.Handler.Recovery.{
  Inv, first_connect-Inv, connect-Inv, open_door-Inv, report-Inv, timer_called-Inv,
  timer_returned-Inv,
}
use door_switch_svr.Handler.Race.{door_refused}

abbrev pub IsFresh : Handler → Type 0
IsFresh h = h ≡ new_handler h.switch_info

abbrev pub IsAlive : Handler → Type 0
IsAlive h = Inv true h ⊎ IsFresh h

pub new_handler-IsAlive : (info : SwitchInfo) → IsAlive (new_handler info)
unfolding new_handler
new_handler-IsAlive info = inr refl

fresh-timer : (h : Handler) → IsFresh h → timer_runs h.calls ≡ false
unfolding new_handler
fresh-timer h f = ap (λ g. timer_runs g.calls) f

fresh-connected : (h : Handler) → IsFresh h → h.connected ≡ false
unfolding new_handler
fresh-connected h f = ap (λ g. g.connected) f

fresh-find : (channel : ℕ) (h : Handler) → IsFresh h → find channel h.controllers ≡ none
unfolding new_handler find
fresh-find channel h f = ap (λ g. find channel g.controllers) f

fresh-returned : (h : Handler) → IsFresh h → timer_returned h ≡ h
unfolding timer_returned new_handler
fresh-returned h f = ground (arith, ap (λ g. g.in_timer) f)

weaken : (h : Handler) → Inv false h → Inv true h
weaken h i = record {
  runs = i.runs;
  called = i.called;
  retries = i.retries;
  flag = refl;
  exact = refl;
  reached = refl;
}

connect-IsAlive : (error : Bool) (h : Handler) → IsAlive h → IsAlive (connect error h).0
connect-IsAlive error h (inl i) = inl (connect-Inv true error h i)
connect-IsAlive error h (inr f) = inl (
    subst (λ g. Inv true (connect error g).0) (sym f)
      (weaken _ (first_connect-Inv error h.switch_info)))

timer_called-IsAlive :
    (error : Bool) (h : Handler)
    → timer_runs h.calls ≡ true
    → h.in_timer ≡ none
    → IsAlive h
    → IsAlive (timer_called error h)
timer_called-IsAlive error h runs idle (inl i) = inl (timer_called-Inv true error h runs idle i)
timer_called-IsAlive error h runs idle (inr f) = absurd (cc (runs, fresh-timer h f))

timer_returned-IsAlive : (h : Handler) → IsAlive h → IsAlive (timer_returned h)
timer_returned-IsAlive h (inl i) = inl (timer_returned-Inv true h i)
timer_returned-IsAlive h (inr f) = subst IsAlive (sym (fresh-returned h f)) (inr f)

open_door-IsAlive :
    (channel close_after : ℤ) (now : ℕ) (h : Handler)
    → IsAlive h
    → IsAlive (open_door channel close_after now h).0
open_door-IsAlive channel close_after now h (inl i) =
    inl (open_door-Inv true channel close_after now h i)
open_door-IsAlive channel close_after now h (inr f) =
    subst IsAlive (sym (door_refused channel close_after now h (fresh-connected h f))) (inr f)

report-IsAlive :
    (channel : ℕ) (c : Controller) (r : Controller × Bool) (h : Handler)
    → find channel h.controllers ≡ some c
    → IsAlive h
    → IsAlive (report channel r h)
report-IsAlive channel c r h found (inl i) = inl (report-Inv true channel r h i)
report-IsAlive channel c r h found (inr f) =
    absurd (none-ne-some (sym (fresh-find channel h f) ∙ found))

pub own-IsAlive : IsKeptBy (λ _. Unit {0}) IsAlive
own-IsAlive = record {
  fires = timer_called-IsAlive;
  returns = timer_returned-IsAlive;
  connects = λ error h f a. connect-IsAlive error h a;
  opens = λ channel close_after now h f a. open_door-IsAlive channel close_after now h a;
  reports = λ channel c r h found did a. report-IsAlive channel c r h found a;
}
