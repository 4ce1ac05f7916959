-- ===== src/Handler/InOrder.antt =====
-- `openDoor` against what it means to do: set up a new controller and store it under its own channel. The
-- code agrees while new channels come in ascending order.
use door_switch_svr.Prelude.{
  ℕ, List, [], ◌∷◌, ◌++◌, ◌≡◌, refl, sym, ◌∙◌, ap, append-nil, append_assoc, Bool, subst,
  Bool-cases, false, ◌==◌, ◌⊎◌, inl, inr, ◌≢◌, true, Option, none, some, arith, if◌then◌else◌,
}
use door_switch_svr.Prelude.Int.{ℤ, u16}
use door_switch_svr.OrderedMap.{key_ℕ, find, insert, adjust}
use door_switch_svr.OrderedMap.Laws.{
  IsSorted, Below, last-insert_greatest, adjust_last-adjust, insert-IsSorted, adjust-IsSorted,
  adjust-insert, find-insert_self, find-insert_ne, find-adjust_self, find-adjust_ne,
}
use door_switch_svr.Controller.{Controller, new_controller, init, start, add_task}
use door_switch_svr.Controller.Run.{Notification}
use door_switch_svr.Handler.{Handler, open_door, open_found, open_last}
use door_switch_svr.Handler.Doors.{task_of}
use door_switch_svr.Handler.Race.{open_all}

-- The controller of a channel with its first task.
abbrev pub made_ready : ℕ → Notification → Controller
made_ready k task = add_task task (start (init k new_controller).0)

abbrev pub meant_found : ℕ → Notification → Option Controller → Handler → Handler
meant_found k task none h = record h { controllers = insert k (made_ready k task) h.controllers }
meant_found k task (some c) h = record h { controllers = adjust k (add_task task) h.controllers }

abbrev pub meant_open : ℤ → ℤ → ℕ → Handler → Handler
meant_open channel close_after now h =
    let k = u16 channel in
    if h.connected then meant_found k (task_of close_after now) (find k h.controllers) h else h

-- The channel has a controller, or is above all that have one.
abbrev pub IsNext : ℕ → Handler → Type 0
IsNext k h = (find k h.controllers ≢ none) ⊎ Below k h.controllers

found-meant :
    (k : ℕ) (task : Notification) (o : Option Controller) (h : Handler)
    → find k h.controllers ≡ o
    → IsSorted h.controllers
    → IsNext k h
    → (open_found k task o h).0 ≡ meant_found k task o h
unfolding open_found open_last init
found-meant k task (some c) h at s n = refl
found-meant k task none h at s (inl known) = absurd (known at)
found-meant k task none h at s (inr below) =
    let m = insert k new_controller h.controllers in
    let l = last-insert_greatest k new_controller h.controllers below in
    let written =
      adjust_last-adjust k new_controller (λ _. made_ready k task) m
        (insert-IsSorted k new_controller h.controllers s) l
      ∙ adjust-insert k new_controller (made_ready k task) h.controllers at in
    rw l (ap (λ cs. record h { controllers = cs }) written)

pub open_door-meant :
    (channel close_after : ℤ) (now : ℕ) (h : Handler)
    → IsSorted h.controllers
    → IsNext (u16 channel) h
    → (open_door channel close_after now h).0 ≡ meant_open channel close_after now h
unfolding open_door
open_door-meant channel close_after now h s n = ground (
  arith,
  found-meant (u16 channel) (task_of close_after now) (find (u16 channel) h.controllers) h refl s n,
)

abbrev pub meant_open_all : List (ℤ × ℤ × ℕ) → Handler → Handler
meant_open_all [] h = h
meant_open_all ((channel, close_after, now) ∷ rs) h =
    meant_open_all rs (meant_open channel close_after now h)

-- Each channel is known when its request comes, or above all that are known then.
abbrev pub AreInOrder : List (ℤ × ℤ × ℕ) → Handler → Type 0
AreInOrder [] h = Unit {0}
AreInOrder ((channel, close_after, now) ∷ rs) h =
    IsNext (u16 channel) h × AreInOrder rs (meant_open channel close_after now h)

found-IsSorted :
    (k : ℕ) (task : Notification) (o : Option Controller) (h : Handler)
    → IsSorted h.controllers
    → IsSorted (meant_found k task o h).controllers
found-IsSorted k task none h s = insert-IsSorted k (made_ready k task) h.controllers s
found-IsSorted k task (some c) h s = adjust-IsSorted k (add_task task) h.controllers s

meant_open-IsSorted :
    (channel close_after : ℤ) (now : ℕ) (h : Handler)
    → IsSorted h.controllers
    → IsSorted (meant_open channel close_after now h).controllers
meant_open-IsSorted channel close_after now h s = ground (
  arith,
  found-IsSorted (u16 channel) (task_of close_after now) (find (u16 channel) h.controllers) h s,
)

-- A list of requests to a handler with its doors sorted, in which each channel has a controller when
-- its request comes or is above all channels that have one, leaves the handler that opening each
-- door under its own channel would leave.
pub requests_in_order :
    (rs : List (ℤ × ℤ × ℕ)) (h : Handler)
    → IsSorted h.controllers
    → AreInOrder rs h
    → open_all rs h ≡ meant_open_all rs h
requests_in_order [] h s o = refl
requests_in_order ((channel, close_after, now) ∷ rs) h s o =
    let first = open_door-meant channel close_after now h s o.0 in
    ap (open_all rs) first
    ∙ requests_in_order rs (meant_open channel close_after now h)
        (meant_open-IsSorted channel close_after now h s) o.1

abbrev pub waiting : Option Controller → List Notification
waiting none = []
waiting (some c) = c.worker.tasks

-- The tasks that wait at a door.
abbrev pub tasks_at : ℕ → Handler → List Notification
tasks_at k h = waiting (find k h.controllers)

-- The tasks that some requests bring for a door, in their order.
abbrev pub tasks_for : ℕ → List (ℤ × ℤ × ℕ) → List Notification
tasks_for k [] = []
tasks_for k ((channel, close_after, now) ∷ rs) =
    if u16 channel == k then task_of close_after now ∷ tasks_for k rs else tasks_for k rs

own_tasks :
    (k : ℕ) (task : Notification) (o : Option Controller) (h : Handler)
    → find k h.controllers ≡ o
    → tasks_at k (meant_found k task o h) ≡ tasks_at k h ++ (task ∷ [])
unfolding add_task start init new_controller
own_tasks k task none h at =
    ap waiting (find-insert_self k (made_ready k task) h.controllers at)
    ∙ ap (λ ts. ts ++ (task ∷ [])) (sym (ap waiting at))
own_tasks k task (some c) h at =
    ap waiting (find-adjust_self k (add_task task) h.controllers c at)
    ∙ ap (λ ts. ts ++ (task ∷ [])) (sym (ap waiting at))

other_tasks :
    (j k : ℕ) (task : Notification) (o : Option Controller) (h : Handler)
    → j ≢ k
    → tasks_at k (meant_found j task o h) ≡ tasks_at k h
other_tasks j k task none h ne =
    ap waiting (find-insert_ne j k (made_ready j task) h.controllers ne)
other_tasks j k task (some c) h ne =
    ap waiting (find-adjust_ne j k (add_task task) h.controllers ne)

found-tasks :
    (j k : ℕ) (task : Notification) (o : Option Controller) (h : Handler)
    → find j h.controllers ≡ o
    → tasks_at k (meant_found j task o h) ≡ tasks_at k h ++ (if j == k then task ∷ [] else [])
found-tasks j k task o h at = elim (Bool-cases (j == k)) [
  | inl e ↦
      let q : j ≡ k = ground arith in
      rw e (
        subst (λ i. tasks_at i (meant_found j task o h) ≡ tasks_at i h ++ (task ∷ [])) q
          (own_tasks j task o h at))
  | inr e ↦ rw e (other_tasks j k task o h (ground arith) ∙ sym (append-nil (tasks_at k h)))
]

found-connected :
    (j : ℕ) (task : Notification) (o : Option Controller) (h : Handler)
    → (meant_found j task o h).connected ≡ h.connected
found-connected j task none h = refl
found-connected j task (some c) h = refl

if-cons :
    (b : Bool) (task : Notification) (ts : List Notification)
    → (if b then task ∷ [] else []) ++ ts ≡ (if b then task ∷ ts else ts)
if-cons true task ts = refl
if-cons false task ts = refl

meant_all-tasks :
    (k : ℕ) (rs : List (ℤ × ℤ × ℕ)) (h : Handler)
    → h.connected ≡ true
    → tasks_at k (meant_open_all rs h) ≡ tasks_at k h ++ tasks_for k rs
meant_all-tasks k [] h conn = sym (append-nil (tasks_at k h))
meant_all-tasks k ((channel, close_after, now) ∷ rs) h conn =
    let j = u16 channel in
    let task = task_of close_after now in
    let o = find j h.controllers in
    let h' : Handler = meant_found j task o h in
    let opened : meant_open channel close_after now h ≡ h' = ap (λ b. if b then h' else h) conn in
    ap (λ g. tasks_at k (meant_open_all rs g)) opened
    ∙ meant_all-tasks k rs h' (found-connected j task o h ∙ conn)
    ∙ ap (λ ts. ts ++ tasks_for k rs) (found-tasks j k task o h refl)
    ∙ append_assoc (tasks_at k h) (if j == k then task ∷ [] else []) (tasks_for k rs)
    ∙ ap (λ ts. tasks_at k h ++ ts) (if-cons (j == k) task (tasks_for k rs))

-- On a connected switch with its doors sorted, and for a list of requests in which each channel
-- has a controller when its request comes or is above all channels that have one: afterwards the
-- tasks that wait at a door are those that waited there before and then those of the requests for
-- its channel, in the order of their arrival.
pub requests_queue :
    (rs : List (ℤ × ℤ × ℕ)) (h : Handler) (k : ℕ)
    → h.connected ≡ true
    → IsSorted h.controllers
    → AreInOrder rs h
    → tasks_at k (open_all rs h) ≡ tasks_at k h ++ tasks_for k rs
requests_queue rs h k conn s o =
    ap (tasks_at k) (requests_in_order rs h s o) ∙ meant_all-tasks k rs h conn
