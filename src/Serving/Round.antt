-- ===== src/Serving/Round.antt =====
-- A message for a door of a connected switch whose thread waits.
use door_switch_svr.Prelude.{
  ℕ, ◌+◌, ◌*◌, ◌≤◌, ◌<◌, [], ◌∷◌, ◌≡◌, refl, sym, ◌∙◌, ap, subst, inl, inr, false, Option, some,
  arith,
}
use door_switch_svr.Prelude.Int.{pos, i16, u16, leb_ℤ}
use door_switch_svr.OrderedMap.{key_ℕ, key_text, find}
use door_switch_svr.Param.{Text, SwitchInfo, SvrCfg}
use door_switch_svr.Poco.{Json}
use door_switch_svr.Controller.{Controller, add_task}
use door_switch_svr.Controller.Run.{Notification, Pc, Worker, Request, opening, closing, real_wait}
use door_switch_svr.Controller.Run.Deadline.{SleepsUntil, task_meets_deadline}
use door_switch_svr.Handler.{Handler, open_door}
use door_switch_svr.Handler.Doors.{task_of, open_known-found, connected-open_door}
use door_switch_svr.Engine.{OpenDoorRequest, Engine, Surroundings, on_recv_mqtt_message}
use door_switch_svr.Engine.Request.{Asks, narrowed}
use door_switch_svr.Engine.Known.{recv-known}
use door_switch_svr.Mqtt.{MosquittoMessage, Proxy, on_message}
use door_switch_svr.Svr.{delivered}
use door_switch_svr.Serving.{Server, hear, Reach, later, hears}
use door_switch_svr.Serving.Hear.{heard-engine}
use door_switch_svr.Serving.Turns.{some-inj, HasDoor, run_door, run_door-proxy, Reach-run_door}
use door_switch_svr.Serving.Online.{IsOnline}
use door_switch_svr.Serving.Opens.{command_to, in_time}
use door_switch_svr.Serving.Again.{
  waiting_worker, IsServing, asleep, turn_opens, Turns, first_turn, last_turns, AreWritten,
  task_opens, task_closes,
}

-- A message, and what the door's thread does then.
pub record Round : Type 0 where
  pub env : Surroundings
  pub message : MosquittoMessage
  pub turns : Turns

-- The proxy lets the message through, it asks for this door, and the thread takes the task before its time
-- and about 24 days have run out, and writes its commands in full.
pub record IsRound (json : Json) (cfg : SvrCfg) (p : Proxy) (info : SwitchInfo) (c : ℕ) (x : Round)
    : Type 0 where
  pub payload : Text
  pub let_through : on_message x.message p ≡ some payload
  pub req : OpenDoorRequest
  pub asks : Asks json cfg payload req info c
  pub close : ℕ
  pub given : req.close_after ≡ pos close
  pub written : AreWritten x.turns
  pub started : x.env.now ≤ x.turns.t1
  pub soon : x.turns.t1 < x.env.now + 1000 * close
  pub fits : x.turns.t1 < x.env.now + 2147483648000

door_worker :
    (task : Notification) (d : Controller) (pc : Pc)
    → d.worker ≡ waiting_worker [] pc
    → (add_task task d).worker ≡ waiting_worker (task ∷ []) pc
unfolding add_task
door_worker task d pc e = ground arith

module _ (json : Json) (cfg : SvrCfg) (info : SwitchInfo) (c : ℕ) (small : c ≤ 15) (s : Server)
    (x : Round) (round : IsRound json cfg s.proxy info c x)
    (serving : IsServing info.oid c info.type s) where
  abbrev task : Notification
  task = task_of round.req.close_after x.env.now

  abbrev heard : Server
  heard = hear json cfg (delivered x.env x.message) s

  -- The handler and the door after the message.
  heard-HasDoor :
      HasDoor info.oid c c info.type (waiting_worker (task ∷ []) serving.pc) heard
      × IsOnline info.oid heard
  heard-HasDoor =
      let (h, at, on) = serving.online in
      let has = serving.has in
      let same : has.handler ≡ h = some-inj (sym has.at ∙ at) in
      let h' = (open_door (i16 round.req.channel) round.req.close_after x.env.now h).0 in
      let here =
        recv-known json cfg x.env round.payload round.req info c round.asks s.engine h
          (subst (λ k. find k s.engine.handlers ≡ some h) round.asks.own_id at) in
      let at' : find info.oid heard.engine.handlers ≡ some h' =
        ap (λ (e : Engine). find info.oid e.handlers)
          (heard-engine json cfg x.env x.message round.payload s round.let_through).0
        ∙ subst
            (λ k.
              find k (on_recv_mqtt_message json cfg x.env round.payload s.engine).0.handlers
              ≡ some h')
            (sym round.asks.own_id) here in
      let key = narrowed json cfg x.env round.payload round.req info c round.asks in
      let door_at : find (u16 (i16 round.req.channel)) h.controllers ≡ some has.door =
        subst (λ (g : Handler). find (u16 (i16 round.req.channel)) g.controllers ≡ some has.door)
          same
          (subst (λ i. find i has.handler.controllers ≡ some has.door) (sym key) has.door_at) in
      let (found, kept) =
        open_known-found (i16 round.req.channel) round.req.close_after x.env.now h has.door on
          door_at in
      (
        record {
          handler = h';
          at = at';
          of_type =
              ap (λ (i : SwitchInfo). i.type) kept
              ∙ ap (λ (g : Handler). g.switch_info.type) (sym same)
              ∙ has.of_type;
          door = add_task task has.door;
          door_at = subst (λ i. find i h'.controllers ≡ some (add_task task has.door)) key found;
          worker = door_worker task has.door serving.pc has.worker;
          channel_of = unfold add_task in has.channel_of;
        },
        (
          h',
          at',
          connected-open_door (i16 round.req.channel) round.req.close_after x.env.now h ∙ on,
        ),
      )

  fresh : leb_ℤ (real_wait x.turns.t1 task) (pos 0) ≡ false
  fresh = in_time x.turns.t1 task round.close round.given round.started round.soon round.fits

  -- The thread sleeps until the time to close.
  sleeps :
      SleepsUntil
        (x.env.now + 1000 * round.close)
        x.turns.t1
        (asleep info.type task x.turns.t1 x.turns.t2 x.turns.t3 fresh).pc
  sleeps =
      let w = waiting_worker (task ∷ []) serving.pc in
      let (_, outcome) =
        task_meets_deadline x.turns.t1 task round.close round.given round.started round.fits
          info.type [] w serving.waits refl in
      let taken =
        turn_opens info.type task x.turns.t1 x.turns.t2 x.turns.t3 fresh serving.pc serving.waits in
      elim outcome [
        | inl (late, _, _) ↦ absurd (omega (arith, late, round.soon))
        | inr (early, until) ↦
            subst
              (λ (r : Worker × Option Request).
                SleepsUntil (x.env.now + 1000 * round.close) x.turns.t1 r.0.pc)
              taken until
      ]

  -- A message for a door whose thread waits, on a connected switch, opens the door and closes it again. Let
  -- the message be let through by the proxy and ask for the door, its channel at most 15, and let
  -- the thread take the task before its time has run out and write its commands in full. Then after
  -- one turn of the thread one command has been sent, to open this door; the thread sleeps, and wakes
  -- when the time has run out, at most a millisecond later; after two more turns one more command has
  -- been sent, to close this door, the switch is still connected, and the thread waits for its next
  -- task. All this are steps of the server.
  pub message_opens_again :
      Reach json cfg s
      → (s1 : Server) × (s2 : Server) × (w : Worker) × (run_door info.oid c
            (first_turn x.turns)
            heard
          ≡ some s1)
        × HasDoor info.oid c c info.type w s1
        × SleepsUntil (x.env.now + 1000 * round.close) x.turns.t1 w.pc
        × (s1.sent ≡ command_to info.oid c opening ∷ s.sent)
        × (run_door info.oid c (last_turns x.turns) s1 ≡ some s2)
        × (s2.sent ≡ command_to info.oid c closing ∷ command_to info.oid c opening ∷ s.sent)
        × IsServing info.oid c info.type s2
        × Reach json cfg s2
  message_opens_again reach =
      let (has, online) = heard-HasDoor in
      let (_, same_sent, _) =
        heard-engine json cfg x.env x.message round.payload s round.let_through in
      let (s1, ran, has1, sent, online1) =
        task_opens info.oid c info.type task heard round.asks.lower small serving.pc serving.waits
          has online x.turns round.written fresh round.fits in
      let (s2, ran', sent', serving') =
        task_closes info.oid c info.type task heard round.asks.lower small serving.pc serving.waits
          has online x.turns round.written fresh round.fits s1 has1 online1 in
      let opened = sent ∙ ap (λ xs. command_to info.oid c opening ∷ xs) same_sent in
      let heard_reach = later reach (hears (delivered x.env x.message)) in
      (
        s1,
        s2,
        asleep info.type task x.turns.t1 x.turns.t2 x.turns.t3 fresh,
        ran,
        has1,
        sleeps,
        opened,
        ran',
        sent' ∙ ap (λ xs. command_to info.oid c closing ∷ xs) opened,
        serving',
        Reach-run_door json cfg info.oid c (last_turns x.turns) s1 s2
            (Reach-run_door json cfg info.oid c (first_turn x.turns) heard s1 heard_reach ran) ran',
      )

  pub same_proxy :
      (s1 s2 : Server)
      → run_door info.oid c (first_turn x.turns) heard ≡ some s1
      → run_door info.oid c (last_turns x.turns) s1 ≡ some s2
      → s2.proxy ≡ s.proxy
  same_proxy s1 s2 ran ran' =
      run_door-proxy info.oid c (last_turns x.turns) s1 s2 ran'
      ∙ run_door-proxy info.oid c (first_turn x.turns) heard s1 ran
      ∙ (heard-engine json cfg x.env x.message round.payload s round.let_through).2
