-- ===== src/Serving/Opens.antt =====
-- From a message to the relay and back: the first message for a switch opens its door and closes it.
mod Tests
use door_switch_svr.Prelude.{
  ℕ, ◌+◌, ◌*◌, ◌≤◌, ◌<◌, [], ◌∷◌, ◌++◌, ◌≡◌, refl, sym, ◌∙◌, ap, subst, inl, inr, false, true,
  Option, none, some, arith,
}
use door_switch_svr.Prelude.Int.{pos, leb_ℤ}
use door_switch_svr.OrderedMap.{key_ℕ, key_text, find}
use door_switch_svr.OrderedMap.Laws.{Below}
use door_switch_svr.OrderedMap.Every.{All-find}
use door_switch_svr.Param.{Text, SwitchType, SwitchInfo, SvrCfg}
use door_switch_svr.Poco.{Json}
use door_switch_svr.Controller.{WriteResult}
use door_switch_svr.Controller.Run.{
  Notification, Worker, Request, opening, closing, before_wait, turn, overflows, real_wait,
}
use door_switch_svr.Controller.Run.Deadline.{
  fresh-calm, SleepsUntil, wait-cases, task_meets_deadline,
}
use door_switch_svr.Handler.{Handler}
use door_switch_svr.Handler.Doors.{task_of}
use door_switch_svr.Handler.NewDoor.{ready_worker}
use door_switch_svr.Engine.{OpenDoorRequest, Engine, Surroundings, on_recv_mqtt_message}
use door_switch_svr.Engine.Request.{Asks}
use door_switch_svr.Engine.Created.{IsOpening, first_opens}
use door_switch_svr.Engine.Invariant.{IsServed}
use door_switch_svr.Mqtt.{MosquittoMessage, on_message}
use door_switch_svr.Svr.{delivered, receive, deliver}
use door_switch_svr.Svr.Load.Loaded.{IsTable}
use door_switch_svr.Serving.{Sent, Server, hear, sent_by, Reach, later, hears}
use door_switch_svr.Serving.Hear.{heard-engine}
use door_switch_svr.Serving.Invariant.{Reach-IsSafe}
use door_switch_svr.Serving.Online.{IsOnline}
use door_switch_svr.Serving.Turns.{HasDoor, AreCalm, run_door, run_door-thread, Reach-run_door}

module _ (type : SwitchType) (task : Notification) (t0 t1 t2 : ℕ) where
  waiting : Worker
  waiting = record (ready_worker task) { pc = before_wait }

  comes_to_wait : turn type t0 (ready_worker task) ≡ (waiting, none)
  unfolding turn waiting
  comes_to_wait = refl

  opens_then : leb_ℤ (real_wait t1 task) (pos 0) ≡ false → (turn type t1 waiting).1 ≡ some opening
  unfolding turn waiting
  opens_then fresh = ground arith

  closes_then :
      leb_ℤ (real_wait t1 task) (pos 0) ≡ false
      → (turn type t2 (turn type t1 waiting).0).1 ≡ some closing
  unfolding turn waiting
  closes_then fresh = ground arith

pub in_time :
    (t1 : ℕ) (task : Notification) (close : ℕ)
    → task.close_after_ms ≡ pos close
    → task.started ≤ t1
    → t1 < task.started + 1000 * close
    → t1 < task.started + 2147483648000
    → leb_ℤ (real_wait t1 task) (pos 0) ≡ false
in_time t1 task close given started soon fits = elim (wait-cases t1 task close given started fits) [
  | inl (late, expired) ↦ absurd (omega (arith, late, soon))
  | inr (wait, left, fresh, early, lower, upper) ↦ fresh
]

sleeps_in_time :
    (type : SwitchType) (t0 t1 t2 : ℕ) (task : Notification) (close : ℕ)
    → task.close_after_ms ≡ pos close
    → task.started ≤ t1
    → t1 < task.started + 1000 * close
    → t1 < task.started + 2147483648000
    → SleepsUntil (task.started + 1000 * close) t1 (turn type t1 (waiting type task t0 t1 t2)).0.pc
unfolding waiting
sleeps_in_time type t0 t1 t2 task close given started soon fits =
    let (_, outcome) =
      task_meets_deadline t1 task close given started fits type [] (waiting type task t0 t1 t2)
        (inl refl) refl in
    elim outcome [
      | inl (late, _, _) ↦ absurd (omega (arith, late, soon))
      | inr (early, sleeps) ↦ sleeps
    ]

abbrev pub command_to : Text → ℕ → Request → Sent
command_to k c r = record { switch_id = k; request = r; channel = c }

-- A ready thread at its turns: it waits, opens its door and sleeps, and closes it.
module _ (k : Text) (c : ℕ) (type : SwitchType) (task : Notification) (s : Server) (lower : 1 ≤ c)
    (upper : c ≤ 15) (has : HasDoor k c c type (ready_worker task) s) (r0 r1 r2 : WriteResult)
    (t0 t1 t2 : ℕ) (fresh : leb_ℤ (real_wait t1 task) (pos 0) ≡ false)
    (fits : t1 < task.started + 2147483648000) where
  opening-AreCalm : AreCalm type ((r0, t0) ∷ (r1, t1) ∷ []) (ready_worker task)
  unfolding overflows turn
  opening-AreCalm = (refl, (fresh-calm t1 task fits fresh, tt))

  closing-AreCalm : AreCalm type ((r2, t2) ∷ []) (turn type t1 (waiting type task t0 t1 t2)).0
  unfolding overflows turn waiting
  closing-AreCalm = (ground arith, tt)

  door_opens :
      (s' : Server) × (run_door k c ((r0, t0) ∷ (r1, t1) ∷ []) s ≡ some s')
      × HasDoor k c c type (turn type t1 (waiting type task t0 t1 t2)).0 s'
      × (s'.sent ≡ command_to k c opening ∷ s.sent)
  unfolding sent_by
  door_opens =
      let (s', ran, has', sent) =
        run_door-thread k c c type lower upper ((r0, t0) ∷ (r1, t1) ∷ []) (ready_worker task) s
          opening-AreCalm has in
      let first = comes_to_wait type task t0 t1 t2 in
      (
        s',
        ran,
        subst (λ (r : Worker × Option Request). HasDoor k c c type (turn type t1 r.0).0 s') first
            has',
        sent
            ∙ ap
                (λ (r : Worker × Option Request).
                  sent_by k c (turn type t1 r.0).1 ++ (sent_by k c r.1 ++ s.sent))
                first
            ∙ ap (λ o. sent_by k c o ++ s.sent) (opens_then type task t0 t1 t2 fresh),
      )

  door_closes :
      (s' : Server)
      → HasDoor k c c type (turn type t1 (waiting type task t0 t1 t2)).0 s'
      → (s'' : Server) × (run_door k c ((r2, t2) ∷ []) s' ≡ some s'')
        × (s''.sent ≡ command_to k c closing ∷ s'.sent)
  unfolding sent_by
  door_closes s' has' =
      let (s'', ran, _, sent) =
        run_door-thread k c c type lower upper ((r2, t2) ∷ []) _ s' closing-AreCalm has' in
      (s'', ran, sent ∙ ap (λ o. sent_by k c o ++ s'.sent) (closes_then type task t0 t1 t2 fresh))

module _ (json : Json) (cfg : SvrCfg) (table : IsTable cfg.map_oid_switch_info) (s : Server)
    (reach : Reach json cfg s) (env : Surroundings) (message : MosquittoMessage) (payload : Text)
    (let_through : on_message message s.proxy ≡ some payload) (req : OpenDoorRequest)
    (info : SwitchInfo) (c : ℕ) (asks : Asks json cfg payload req info c)
    (address : env.is_address info.ip ≡ true) (reached : env.connect_error ≡ false)
    (absent : find info.oid s.engine.handlers ≡ none)
    (below : Below info.oid s.engine.handlers) where
  abbrev pub heard : Server
  heard = hear json cfg (delivered env message) s

  same-info :
      (info' : SwitchInfo) → find info.oid cfg.map_oid_switch_info ≡ some info' → info' ≡ info
  same-info info' found =
      let found' : find info.oid cfg.map_oid_switch_info ≡ some info =
        subst (λ k. find k cfg.map_oid_switch_info ≡ some info) (sym asks.own_id) asks.found in
      cc

  -- The handler that is made, with its door.
  heard-IsOpening :
      (h : Handler) × (find info.oid heard.engine.handlers ≡ some h)
      × IsOpening c (task_of req.close_after env.now) h
  heard-IsOpening =
      let safe = Reach-IsSafe json cfg s table reach in
      let (h, at, made) =
        first_opens json cfg env payload req info c asks s.engine address reached safe.well.sorted
          absent below in
      (
        h,
        ap (λ (e : Engine). find info.oid e.handlers)
              (heard-engine json cfg env message payload s let_through).0
            ∙ at,
        made,
      )

  pub heard-IsOnline : IsOnline info.oid heard
  heard-IsOnline = let (h, at, (connected, _)) = heard-IsOpening in (h, at, connected)

  pub heard-HasDoor :
      HasDoor info.oid c c info.type (ready_worker (task_of req.close_after env.now)) heard
  heard-HasDoor =
      let (h, at, (_, (d, door_at, (channel, _, worker)))) = heard-IsOpening in
      let safe = Reach-IsSafe json cfg heard table (later reach (hears (delivered env message))) in
      let (info', found, kept) =
        All-find (IsServed cfg) info.oid h heard.engine.handlers at safe.well.served in
      record {
        handler = h;
        at = at;
        of_type = ap (λ (i : SwitchInfo). i.type) (kept.switch ∙ same-info info' found);
        door = d;
        door_at = door_at;
        worker = worker;
        channel_of = channel;
      }

  -- The first message for a switch opens its door and closes it again. Let the message be let
  -- through by the proxy and ask for a channel, at most 15, that its switch has in the configuration
  -- (`Asks`), let the switch have no handler and its id be above all ids with one, its ip be an
  -- address and the connect succeed, in any state that the server can come to. Then after two turns
  -- of the door's thread, the second of which comes before the time to close has run out, one
  -- command has been sent, to open this door; the thread sleeps, and wakes when the time has run
  -- out, at most a millisecond later; and after its next turn one more command has been sent, to
  -- close this door. The results of the writes and the kind of the relay make no difference; and all this
  -- are steps of the server.
  pub message_opens_door :
      (r0 r1 r2 : WriteResult) (t0 t1 t2 close : ℕ)
      → c ≤ 15
      → req.close_after ≡ pos close
      → env.now ≤ t1
      → t1 < env.now + 1000 * close
      → t1 < env.now + 2147483648000
      → let due = env.now + 1000 * close in
        (s1 : Server) × (s2 : Server) × (w : Worker) × (run_door info.oid c
            ((r0, t0) ∷ (r1, t1) ∷ [])
            heard
          ≡ some s1)
        × HasDoor info.oid c c info.type w s1
        × SleepsUntil due t1 w.pc
        × (s1.sent ≡ command_to info.oid c opening ∷ s.sent)
        × (run_door info.oid c ((r2, t2) ∷ []) s1 ≡ some s2)
        × (s2.sent ≡ command_to info.oid c closing ∷ command_to info.oid c opening ∷ s.sent)
        × Reach json cfg s2
  message_opens_door r0 r1 r2 t0 t1 t2 close small given started soon fits =
      let heard-sent = (heard-engine json cfg env message payload s let_through).1 in
      let task = task_of req.close_after env.now in
      let fresh = in_time t1 task close given started soon fits in
      let door =
        door_opens info.oid c info.type task heard asks.lower small heard-HasDoor r0 r1 r2 t0 t1 t2
          fresh fits in
      let (s1, ran, has, sent) = door in
      let (s2, ran', sent') =
        door_closes info.oid c info.type task heard asks.lower small heard-HasDoor r0 r1 r2 t0 t1 t2
          fresh fits s1 has in
      (
        s1,
        s2,
        (turn info.type t1 (waiting info.type task t0 t1 t2)).0,
        ran,
        has,
        sleeps_in_time info.type t0 t1 t2 task close given started soon fits,
        sent ∙ ap (λ xs. command_to info.oid c opening ∷ xs) heard-sent,
        ran',
        sent'
            ∙ ap (λ xs. command_to info.oid c closing ∷ xs)
                (sent ∙ ap (λ xs. command_to info.oid c opening ∷ xs) heard-sent),
        Reach-run_door json cfg info.oid c ((r2, t2) ∷ []) s1 s2
            (Reach-run_door json cfg info.oid c ((r0, t0) ∷ (r1, t1) ∷ []) heard s1
              (later reach (hears (delivered env message))) ran)
            ran',
      )
