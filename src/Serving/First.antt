-- ===== src/Serving/First.antt =====
-- A door from the first message for its switch on.
mod Tests
use door_switch_svr.Prelude.{
  ℕ, suc, ◌+◌, ◌*◌, ◌≤◌, ◌<◌, List, [], ◌∷◌, ◌++◌, ◌≡◌, refl, sym, ◌∙◌, ap, subst, inl, false, true,
  Option, none, some, All, length,
}
use door_switch_svr.Prelude.Int.{pos}
use door_switch_svr.OrderedMap.{key_text, find}
use door_switch_svr.OrderedMap.Laws.{Below}
use door_switch_svr.Param.{Text, SwitchType, SwitchInfo, SvrCfg}
use door_switch_svr.Poco.{Json}
use door_switch_svr.Controller.{WriteResult}
use door_switch_svr.Controller.Written.{IsWritten}
use door_switch_svr.Controller.Run.{
  Notification, Worker, Request, opening, closing, before_wait, turn, overflows,
}
use door_switch_svr.Handler.Doors.{task_of}
use door_switch_svr.Handler.NewDoor.{ready_worker}
use door_switch_svr.Svr.{delivered}
use door_switch_svr.Svr.Load.Loaded.{IsTable}
use door_switch_svr.Serving.{Server, hear, sent_by, Reach, later, hears}
use door_switch_svr.Serving.Hear.{heard-engine}
use door_switch_svr.Serving.Turns.{
  HasDoor, AreCalm, and_then, run_door, run_door-thread, run_door-proxy, Reach-run_door,
}
use door_switch_svr.Serving.Online.{IsOnline, run_door-IsOnline}
use door_switch_svr.Serving.Opens.{command_to, in_time, heard-HasDoor, heard-IsOnline}
use door_switch_svr.Serving.Again.{
  waiting_worker, IsServing, Turns, first_turn, last_turns, task_opens, task_closes,
}
use door_switch_svr.Serving.Round.{Round, IsRound}
use door_switch_svr.Serving.Among.{run_door-append}
use door_switch_svr.Serving.Rounds.{serve_rounds, cycles, messages_open_in_turn}

ready-waits :
    (type : SwitchType) (t : ℕ) (task : Notification)
    → turn type t (ready_worker task) ≡ (waiting_worker (task ∷ []) before_wait, none)
unfolding turn
ready-waits type t task = refl

-- The turns of the door's thread for the first task: it comes to the wait, and then serves the task.
abbrev pub all_turns : WriteResult → ℕ → Turns → List (WriteResult × ℕ)
all_turns r t ts = (r, t) ∷ (first_turn ts ++ last_turns ts)

module _ (json : Json) (cfg : SvrCfg) (info : SwitchInfo) (c : ℕ) (small : c ≤ 15)
    (table : IsTable cfg.map_oid_switch_info) (s : Server) (reach : Reach json cfg s) (x : Round)
    (round : IsRound json cfg s.proxy info c x) (r : WriteResult) (written : IsWritten r) (t : ℕ)
    (address : x.env.is_address info.ip ≡ true) (reached : x.env.connect_error ≡ false)
    (absent : find info.oid s.engine.handlers ≡ none)
    (below : Below info.oid s.engine.handlers) where
  abbrev task : Notification
  task = task_of round.req.close_after x.env.now

  abbrev heard : Server
  heard = hear json cfg (delivered x.env x.message) s

  ready-AreCalm : AreCalm info.type ((r, t) ∷ []) (ready_worker task)
  unfolding overflows
  ready-AreCalm = (refl, tt)

  -- The new door, whose thread has come to the wait.
  comes_to_wait :
      (s0 : Server) × (run_door info.oid c ((r, t) ∷ []) heard ≡ some s0)
      × HasDoor info.oid c c info.type (waiting_worker (task ∷ []) before_wait) s0
      × (s0.sent ≡ s.sent)
      × IsOnline info.oid s0
  unfolding sent_by
  comes_to_wait =
      let has =
        heard-HasDoor json cfg table s reach x.env x.message round.payload round.let_through
          round.req info c round.asks address reached absent below in
      let online =
        heard-IsOnline json cfg table s reach x.env x.message round.payload round.let_through
          round.req info c round.asks address reached absent below in
      let (s0, ran, has0, sent) =
        run_door-thread info.oid c c info.type round.asks.lower small ((r, t) ∷ [])
          (ready_worker task) heard ready-AreCalm has in
      let first = ready-waits info.type t task in
      (
        s0,
        ran,
        subst (λ (p : Worker × Option Request). HasDoor info.oid c c info.type p.0 s0) first has0,
        sent
            ∙ ap (λ (p : Worker × Option Request). sent_by info.oid c p.1 ++ heard.sent) first
            ∙ (heard-engine json cfg x.env x.message round.payload s round.let_through).1,
        run_door-IsOnline info.oid c ((r, t) ∷ []) heard s0 (written, tt) ran online,
      )

  pub first_served :
      (s2 : Server) × (run_door info.oid c (all_turns r t x.turns) heard ≡ some s2)
      × (s2.sent ≡ command_to info.oid c closing ∷ command_to info.oid c opening ∷ s.sent)
      × IsServing info.oid c info.type s2
  first_served =
      let k = info.oid in
      let fresh =
        in_time x.turns.t1 task round.close round.given round.started round.soon round.fits in
      let (s0, ran, has, sent, online) = comes_to_wait in
      let (s1, ran1, has1, sent1, online1) =
        task_opens k c info.type task s0 round.asks.lower small before_wait (inl refl) has online
          x.turns round.written fresh round.fits in
      let (s2, ran2, sent2, serving) =
        task_closes k c info.type task s0 round.asks.lower small before_wait (inl refl) has online
          x.turns round.written fresh round.fits s1 has1 online1 in
      (
        s2,
        run_door-append k c ((r, t) ∷ []) (first_turn x.turns ++ last_turns x.turns) heard s0 s2 ran
            (run_door-append k c (first_turn x.turns) (last_turns x.turns) s0 s1 s2 ran1 ran2),
        sent2
            ∙ ap (λ ys. command_to k c closing ∷ ys)
                (sent1 ∙ ap (λ ys. command_to k c opening ∷ ys) sent),
        serving,
      )

  -- From the first message for a switch on, every message opens its door and closes it again. Let the
  -- server be in any state that it can come to in which the switch has no handler and its id is above
  -- all ids with one; let the ip of the switch be an address and the connect succeed; and let the
  -- messages, the first and any number after it, each be let through by the proxy and ask for the
  -- same door, its channel at most 15, each after the door has closed for the one before. Let the door's
  -- thread have its turns in between, take each task before its time has run out and write its
  -- commands in full. Then the server has sent one command to open the door and one to close it for each
  -- message, in turn, and no other; the switch is connected and the thread waits for its next task; and
  -- all this are steps of the server.
  pub messages_open_from_first :
      (xs : List Round)
      → All (IsRound json cfg s.proxy info c) xs
      → (s' : Server) × (and_then
            (serve_rounds json cfg info.oid c xs)
            (run_door info.oid c (all_turns r t x.turns) heard)
          ≡ some s')
        × (s'.sent ≡ cycles info.oid c (suc (length xs)) s.sent)
        × IsServing info.oid c info.type s'
        × Reach json cfg s'
  messages_open_from_first xs rounds =
      let k = info.oid in
      let (s2, ran, sent, serving) = first_served in
      let heard_reach = later reach (hears (delivered x.env x.message)) in
      let same =
        run_door-proxy k c (all_turns r t x.turns) heard s2 ran
        ∙ (heard-engine json cfg x.env x.message round.payload s round.let_through).2 in
      let (s', all, sent', serving', reach') =
        messages_open_in_turn json cfg info c xs s2 small
          (Reach-run_door json cfg k c (all_turns r t x.turns) heard s2 heard_reach ran) serving
          (subst (λ p. All (IsRound json cfg p info c) xs) (sym same) rounds) in
      (
        s',
        ap (and_then (serve_rounds json cfg k c xs)) ran ∙ all,
        sent' ∙ ap (cycles k c (length xs)) sent,
        serving',
        reach',
      )
