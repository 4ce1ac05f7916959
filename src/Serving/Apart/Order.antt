-- ===== src/Serving/Apart/Order.antt =====
-- Two orders of the events of the handlers that agree on each switch.
use door_switch_svr.Prelude.{
  List, [], ◌∷◌, ◌++◌, arith, ◌≡◌, refl, sym, ◌∙◌, ap, subst, inl, inr, true, false, Bool-cases,
  Option, none, some, Option-cases, if◌then◌else◌,
}
use door_switch_svr.OrderedMap.{key_text, find}
use door_switch_svr.OrderedMap.Laws.{cmp_self}
use door_switch_svr.Param.{Text}
use door_switch_svr.Handler.{Handler}
use door_switch_svr.Handler.Event.{Event, step, none-ne-some}
use door_switch_svr.Serving.{Sent, Server, sends, act, act_moved, act_found, act_on}
use door_switch_svr.Serving.Turns.{and_then, some-inj}
use door_switch_svr.Serving.Apart.{
  is_same, same_eq, other_ne, run_events, events_of, sent_to, View, view, run_alone, act_on_own,
  act_on_other,
}

-- The next event of a switch, or of another one.
module _ (k j : Text) (e : Event) (xs : List (Text × Event)) where
  events_of_own : is_same j k ≡ true → events_of k ((j, e) ∷ xs) ≡ e ∷ events_of k xs
  events_of_own same = ap (λ b. if b then e ∷ events_of k xs else events_of k xs) same

  events_of_other : is_same j k ≡ false → events_of k ((j, e) ∷ xs) ≡ events_of k xs
  events_of_other other = ap (λ b. if b then e ∷ events_of k xs else events_of k xs) other

  -- A step of the server is the next step of its switch, and none of any other.
  next_view :
      (s s1 : Server)
      → act_on j e s ≡ some s1
      → run_alone k (events_of k ((j, e) ∷ xs)) (view k s)
        ≡ run_alone k (events_of k xs) (view k s1)
  next_view s s1 one = elim (Bool-cases (is_same j k)) [
    | inl same ↦
        ap (λ es. run_alone k es (view k s)) (events_of_own same)
        ∙ act_on_own e k (events_of k xs) s s1
            (subst (λ i. act_on i e s ≡ some s1) (same_eq j k same) one)
    | inr other ↦
        ap (λ es. run_alone k es (view k s)) (events_of_other other)
        ∙ ap (run_alone k (events_of k xs)) (sym (act_on_other e j k s s1 (other_ne j k other) one))
  ]

-- What a run of the server comes to, seen from one switch: a run of its own events.
pub run_events_alone :
    (k : Text) (xs : List (Text × Event)) (s s' : Server)
    → run_events xs s ≡ some s'
    → run_alone k (events_of k xs) (view k s) ≡ some (view k s')
run_events_alone k [] s s' ran = ap (λ t. some (view k t)) (some-inj {a = s} {b = s'} ran)
run_events_alone k ((j, e) ∷ xs) s s' ran = elim (Option-cases (act_on j e s)) [
  | inl stuck ↦ absurd (none-ne-some (sym (ap (and_then (run_events xs)) stuck) ∙ ran))
  | inr (s1, one) ↦
      next_view k j e xs s s1 one
      ∙ run_events_alone k xs s1 s' (sym (ap (and_then (run_events xs)) one) ∙ ran)
]

-- An event is defined on the server if it is on the view of its switch.
act_moved-some :
    (k : Text) (e : Event) (es : List Event) (h : Handler) (o : Option Handler) (sent : List Sent)
    (s : Server) (v : View)
    → and_then (λ h'. run_alone k es (some h', sends k e h ++ sent)) o ≡ some v
    → (s1 : Server) × (act_moved k e h o s ≡ some s1)
unfolding act_moved
act_moved-some k e es h none sent s v ran = absurd (none-ne-some ran)
act_moved-some k e es h (some h') sent s v ran = (act k e h h' s, refl)

act_found-some :
    (k : Text) (e : Event) (es : List Event) (o : Option Handler) (sent : List Sent) (s : Server)
    (v : View)
    → run_alone k (e ∷ es) (o, sent) ≡ some v
    → (s1 : Server) × (act_found k e o s ≡ some s1)
unfolding act_found
act_found-some k e es none sent s v ran = (s, refl)
act_found-some k e es (some h) sent s v ran = act_moved-some k e es h (step e h) sent s v ran

act_on-some :
    (k : Text) (e : Event) (es : List Event) (s : Server) (v : View)
    → run_alone k (e ∷ es) (view k s) ≡ some v
    → (s1 : Server) × (act_on k e s ≡ some s1)
unfolding act_on
act_on-some k e es s v ran =
    act_found-some k e es (find k s.engine.handlers) (sent_to k s.sent) s v ran

is_same_self : (k : Text) → is_same k k ≡ true
is_same_self k = ground (arith, cmp_self k)

-- Runs of the events of every switch alone make a run of the server.
run_events-some :
    (xs : List (Text × Event)) (s : Server)
    → ((k : Text) → (v : View) × (run_alone k (events_of k xs) (view k s) ≡ some v))
    → (s' : Server) × (run_events xs s ≡ some s')
run_events-some [] s alone = (s, refl)
run_events-some ((j, e) ∷ xs) s alone =
    let (v, ran) = alone j in
    let own = ap (λ es. run_alone j es (view j s)) (events_of_own j j e xs (is_same_self j)) in
    let (s1, one) = act_on-some j e (events_of j xs) s v (sym own ∙ ran) in
    let (s', rest) =
      run_events-some xs s1
        (λ k. let (u, ran') = alone k in (u, sym (next_view k j e xs s s1 one) ∙ ran')) in
    (s', ap (and_then (run_events xs)) one ∙ rest)

-- The handlers of different switches do not meet. If two lists of events of handlers have the same
-- events for each switch, in the same order, and one of them runs, then the other runs too, and
-- afterwards every switch has the same handler, and the same commands sent to it in the same
-- order.
pub order_is_free :
    (xs ys : List (Text × Event)) (s s1 : Server) (k : Text)
    → ((j : Text) → events_of j xs ≡ events_of j ys)
    → run_events xs s ≡ some s1
    → (s2 : Server) × (run_events ys s ≡ some s2)
      × (find k s2.engine.handlers ≡ find k s1.engine.handlers)
      × (sent_to k s2.sent ≡ sent_to k s1.sent)
order_is_free xs ys s s1 k same ran =
    let alone = λ (j : Text).
      ap (λ es. run_alone j es (view j s)) (sym (same j)) ∙ run_events_alone j xs s s1 ran in
    let (s2, ran') = run_events-some ys s (λ j. (view j s1, alone j)) in
    let seen : view k s2 ≡ view k s1 = some-inj (sym (run_events_alone k ys s s2 ran') ∙ alone k) in
    (s2, ran', ap (λ (v : View). v.0) seen, ap (λ (v : View). v.1) seen)
