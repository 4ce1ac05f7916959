-- ===== src/Serving/Apart.antt =====
-- The handlers of different switches do not meet: the order in which their events come, each from the
-- threads of its own handler, makes no difference.
pub mod Order
use Prim.Native.Nat.{Ordering}
use door_switch_svr.Prelude.{
  ℕ, List, [], ◌∷◌, ◌++◌, ◌≡◌, ◌≢◌, refl, sym, ◌∙◌, ap, subst, ◌⊎◌, inl, inr, Bool, true, false,
  Option, none, some, Option-cases, arith, All, if◌then◌else◌,
}
use door_switch_svr.OrderedMap.{cmp, key_ℕ, key_text, find, adjust}
use door_switch_svr.OrderedMap.Laws.{cmp_self, find-adjust_self, find-adjust_ne}
use door_switch_svr.Param.{Text}
use door_switch_svr.Controller.{Controller}
use door_switch_svr.Controller.Run.{Request, turn}
use door_switch_svr.Handler.{Handler}
use door_switch_svr.Handler.Event.{
  Event, timer_fires, timer_returns, connects, opens, thread_turns, reads, checks, step,
  none-ne-some,
}
use door_switch_svr.Serving.{
  Sent, Server, sent_by, sends_found, sends, act, act_moved, act_found, act_on,
}
use door_switch_svr.Serving.Turns.{and_then, some-inj}

abbrev pub is_same : Text → Text → Bool
is_same j k = elim (cmp j k) [ Ordering.eq ↦ true | _ ↦ false ]

pub same_eq : (j k : Text) → is_same j k ≡ true → j ≡ k
same_eq j k e = (key_text.eq_iff j k).0 (ground arith)

pub other_ne : (j k : Text) → is_same j k ≡ false → j ≢ k
other_ne j k e q = ground (arith, (key_text.eq_iff j k).1 q)

-- Events of handlers, each with its switch.
abbrev pub run_events : List (Text × Event) → Server → Option Server
run_events [] s = some s
run_events ((k, e) ∷ xs) s = and_then (run_events xs) (act_on k e s)

-- The events of one switch.
abbrev pub events_of : Text → List (Text × Event) → List Event
events_of k [] = []
events_of k ((j, e) ∷ xs) = let rest = events_of k xs in if is_same j k then e ∷ rest else rest

-- The commands sent to one switch.
abbrev pub sent_to : Text → List Sent → List Sent
sent_to k [] = []
sent_to k (x ∷ xs) = let rest = sent_to k xs in if is_same x.switch_id k then x ∷ rest else rest

-- What the server has of one switch: its handler, and the commands sent to it.
abbrev pub View : Type 0
View = Option Handler × List Sent

abbrev pub view : Text → Server → View
view k s = (find k s.engine.handlers, sent_to k s.sent)

-- The events of a switch on what the server has of this switch alone.
abbrev pub run_alone : Text → List Event → View → Option View
run_alone k [] v = some v
run_alone k (e ∷ es) (none, sent) = run_alone k es (none, sent)
run_alone k (e ∷ es) (some h, sent) =
    and_then (λ h'. run_alone k es (some h', sends k e h ++ sent)) (step e h)

-- Every command in the list is for this switch.
abbrev AreFor : Text → List Sent → Type 0
AreFor k = All (λ (x : Sent). x.switch_id ≡ k)

sends_found-AreFor :
    (k : Text) (now : ℕ) (h : Handler) (o : Option Controller) → AreFor k (sends_found k now h o)
unfolding sends_found sent_by
sends_found-AreFor k now h none = tt
sends_found-AreFor k now h (some c) =
    sent_by-AreFor c.channel (turn h.switch_info.type now c.worker).1
  where
    sent_by-AreFor : (channel : ℕ) (o : Option Request) → AreFor k (sent_by k channel o)
    sent_by-AreFor channel none = tt
    sent_by-AreFor channel (some r) = (refl, tt)

sends-AreFor : (k : Text) (e : Event) (h : Handler) → AreFor k (sends k e h)
unfolding sends
sends-AreFor k (timer_fires error) h = tt
sends-AreFor k timer_returns h = tt
sends-AreFor k (connects error) h = tt
sends-AreFor k (opens channel close_after now) h = tt
sends-AreFor k (thread_turns channel result now) h =
    sends_found-AreFor k now h (find channel h.controllers)
sends-AreFor k (reads channel ec size) h = tt
sends-AreFor k (checks channel now) h = tt

sent_to_self :
    (k : Text) (new sent : List Sent)
    → AreFor k new
    → sent_to k (new ++ sent) ≡ new ++ sent_to k sent
sent_to_self k [] sent a = refl
sent_to_self k (x ∷ new) sent a = ground (arith, sent_to_self k new sent a.1, cmp_self k)

sent_to_other :
    (j k : Text) (new sent : List Sent)
    → j ≢ k
    → AreFor j new
    → sent_to k (new ++ sent) ≡ sent_to k sent
sent_to_other j k [] sent ne a = refl
sent_to_other j k (x ∷ new) sent ne a =
    ground (arith, sent_to_other j k new sent ne a.1, key_text.eq_iff j k)

module _ (e : Event) where
  -- An event of a switch does to the server what it does to the view of this switch.
  act_moved_own :
      (k : Text) (es : List Event) (h : Handler) (o : Option Handler) (s s' : Server)
      → find k s.engine.handlers ≡ some h
      → act_moved k e h o s ≡ some s'
      → and_then (λ h'. run_alone k es (some h', sends k e h ++ sent_to k s.sent)) o
        ≡ run_alone k es (view k s')
  unfolding act_moved act
  act_moved_own k es h none s s' at ran = absurd (none-ne-some ran)
  act_moved_own k es h (some h') s s' at ran =
      let t : Server = act k e h h' s in
      let here : find k t.engine.handlers ≡ some h' =
        find-adjust_self k (λ _. h') s.engine.handlers h at in
      let sent = sent_to_self k (sends k e h) s.sent (sends-AreFor k e h) in
      let seen : view k t ≡ (some h', sends k e h ++ sent_to k s.sent) = λ i. (here i, sent i) in
      ap (run_alone k es) (sym seen ∙ ap (view k) (some-inj {a = t} {b = s'} ran))

  act_found_own :
      (k : Text) (es : List Event) (o : Option Handler) (s s' : Server)
      → find k s.engine.handlers ≡ o
      → act_found k e o s ≡ some s'
      → run_alone k (e ∷ es) (o, sent_to k s.sent) ≡ run_alone k es (view k s')
  unfolding act_found
  act_found_own k es none s s' at ran =
      ap (λ o. run_alone k es (o, sent_to k s.sent)) (sym at)
      ∙ ap (λ (t : Server). run_alone k es (view k t)) (some-inj {a = s} {b = s'} ran)
  act_found_own k es (some h) s s' at ran = act_moved_own k es h (step e h) s s' at ran

  pub act_on_own :
      (k : Text) (es : List Event) (s s' : Server)
      → act_on k e s ≡ some s'
      → run_alone k (e ∷ es) (view k s) ≡ run_alone k es (view k s')
  unfolding act_on
  act_on_own k es s s' ran = act_found_own k es (find k s.engine.handlers) s s' refl ran

  -- An event of another switch does nothing to it.
  act_moved_other :
      (j k : Text) (h : Handler) (o : Option Handler) (s s' : Server)
      → j ≢ k
      → act_moved j e h o s ≡ some s'
      → view k s' ≡ view k s
  unfolding act_moved act
  act_moved_other j k h none s s' ne ran = absurd (none-ne-some ran)
  act_moved_other j k h (some h') s s' ne ran =
      let t : Server = act j e h h' s in
      let there = find-adjust_ne j k (λ _. h') s.engine.handlers ne in
      let sent = sent_to_other j k (sends j e h) s.sent ne (sends-AreFor j e h) in
      let seen : view k t ≡ view k s = λ i. (there i, sent i) in
      ap (view k) (sym (some-inj {a = t} {b = s'} ran)) ∙ seen

  act_found_other :
      (j k : Text) (o : Option Handler) (s s' : Server)
      → j ≢ k
      → act_found j e o s ≡ some s'
      → view k s' ≡ view k s
  unfolding act_found
  act_found_other j k none s s' ne ran = ap (view k) (sym (some-inj {a = s} {b = s'} ran))
  act_found_other j k (some h) s s' ne ran = act_moved_other j k h (step e h) s s' ne ran

  pub act_on_other :
      (j k : Text) (s s' : Server) → j ≢ k → act_on j e s ≡ some s' → view k s' ≡ view k s
  unfolding act_on
  act_on_other j k s s' ne ran = act_found_other j k (find j s.engine.handlers) s s' ne ran
