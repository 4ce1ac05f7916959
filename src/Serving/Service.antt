-- ===== src/Serving/Service.antt =====
-- A door from the first message for its switch on, while the server does anything for other switches.
mod Tests
use door_switch_svr.Prelude.{
  ℕ, zero, suc, ◌≤◌, List, [], ◌∷◌, ◌≡◌, refl, ◌∙◌, ap, Option, none, some, true, false,
}
use door_switch_svr.OrderedMap.{key_text, find}
use door_switch_svr.OrderedMap.Laws.{Below}
use door_switch_svr.Param.{Text, SwitchInfo, SvrCfg}
use door_switch_svr.Poco.{Json}
use door_switch_svr.Controller.{WriteResult}
use door_switch_svr.Controller.Written.{IsWritten}
use door_switch_svr.Controller.Run.{opening, closing}
use door_switch_svr.Svr.{delivered}
use door_switch_svr.Svr.Load.Loaded.{IsTable}
use door_switch_svr.Serving.{Server, hear, Reach, later, hears}
use door_switch_svr.Serving.Turns.{run_door}
use door_switch_svr.Serving.Opens.{command_to}
use door_switch_svr.Serving.Again.{IsServing}
use door_switch_svr.Serving.Round.{Round, IsRound}
use door_switch_svr.Serving.Rounds.{cycles}
use door_switch_svr.Serving.First.{all_turns, first_served}
use door_switch_svr.Serving.Apart.{sent_to, View, view}
use door_switch_svr.Serving.Among.{view-IsServing, sent_to-cycle}
use door_switch_svr.Serving.Elsewhere.{Amid, Amid-alone}
use door_switch_svr.Serving.Amid.{turn_events, task_turns, Amid-door, opens_meanwhile}

-- A run in which a door is asked for `n` times, each time after it has closed for the time before: the
-- thread has three turns for each message, and the other switches have events and messages in between.
pub data Service (json : Json) (cfg : SvrCfg) (info : SwitchInfo) (c : ℕ)
    : ℕ → Server → Server → Type 0 where
  done : {s u : Server} → Amid json cfg info.oid [] s u → Service json cfg info c 0 s u
  asked :
      {n : ℕ} {s t v u : Server} (x : Round)
      → Amid json cfg info.oid [] s t
      → IsRound json cfg t.proxy info c x
      → Amid json cfg info.oid
          (turn_events c (task_turns x.turns))
          (hear json cfg (delivered x.env x.message) t)
          v
      → Service json cfg info c n v u
      → Service json cfg info c (suc n) s u

module _ (json : Json) (cfg : SvrCfg) (info : SwitchInfo) (c : ℕ) (small : c ≤ 15)
    (table : IsTable cfg.map_oid_switch_info) where
  -- What happens to other switches leaves a door that waits as it is.
  quiet :
      (s t : Server)
      → Reach json cfg s
      → IsServing info.oid c info.type s
      → Amid json cfg info.oid [] s t
      → (sent_to info.oid t.sent ≡ sent_to info.oid s.sent)
        × IsServing info.oid c info.type t
        × Reach json cfg t
  unfolding run_door
  quiet s t reach serving amid =
      let (seen, reach') = Amid-door json cfg info.oid c [] s s t table reach refl amid in
      (ap (λ (v : View). v.1) seen, view-IsServing info.oid c info.type s t seen serving, reach')

  -- On a connected switch with a door whose thread waits, any number of messages for this door, its
  -- channel at most 15, each let through by the proxy and each after the door has closed for the
  -- one before, open and close the door once each, whatever happens to the other switches in the
  -- meantime (`Service`), if the thread takes each task before its time has run out and its commands are
  -- written in full.
  service_opens :
      (n : ℕ) (s u : Server)
      → Reach json cfg s
      → IsServing info.oid c info.type s
      → Service json cfg info c n s u
      → (sent_to info.oid u.sent ≡ cycles info.oid c n (sent_to info.oid s.sent))
        × IsServing info.oid c info.type u
        × Reach json cfg u
  service_opens _ s u reach serving (done amid) = quiet s u reach serving amid
  service_opens _ s u reach serving (asked {n = n} {t = t} {v = v} x before round amid rest) =
      let (same, serving1, reach1) = quiet s t reach serving before in
      let (sent, serving2, reach2) =
        opens_meanwhile json cfg info c x t v small table reach1 serving1 round amid in
      let (sent', serving', reach') = service_opens n v u reach2 serving2 rest in
      (
        sent'
            ∙ ap (cycles info.oid c n) (
                sent
                ∙ ap (λ xs. command_to info.oid c closing ∷ command_to info.oid c opening ∷ xs)
                    same),
        serving',
        reach',
      )

  -- From the first message for a switch on, every message opens its door once and closes it again,
  -- whatever happens to the other switches in the meantime. Let the server be in any state that it can
  -- come to in which the switch has no handler and its id is above all ids with one; let the ip of
  -- the switch be an address and the connect succeed; and let the messages, the first and `n` after
  -- it, each be let through by the proxy and ask for the same door, its channel at most 15, each
  -- after the door has closed for the one before. Let the door's thread have its turns behind each
  -- message, take each task before its time has run out and write its commands in full, and let these
  -- be the only events of this switch. Let the other switches have any events in between, and get any
  -- messages, each for a switch that has a handler or an id above all ids with one (`Amid`,
  -- `Service`). Then this switch has been sent, in turn, one command to open the door and one to close it
  -- for each message, and no other; it is connected, and the door's thread waits for its next task.
  pub every_message_opens :
      (s : Server) (x : Round) (round : IsRound json cfg s.proxy info c x) (r : WriteResult)
      (t n : ℕ) (v u : Server)
      → Reach json cfg s
      → IsWritten r
      → x.env.is_address info.ip ≡ true
      → x.env.connect_error ≡ false
      → find info.oid s.engine.handlers ≡ none
      → Below info.oid s.engine.handlers
      → Amid json cfg info.oid
          (turn_events c (all_turns r t x.turns))
          (hear json cfg (delivered x.env x.message) s)
          v
      → Service json cfg info c n v u
      → (sent_to info.oid u.sent ≡ cycles info.oid c (suc n) (sent_to info.oid s.sent))
        × IsServing info.oid c info.type u
        × Reach json cfg u
  every_message_opens s x round r t n v u reach written address reached absent below amid service =
      let k = info.oid in
      let heard = hear json cfg (delivered x.env x.message) s in
      let (s2, ran, sent, serving) =
        first_served json cfg info c small table s reach x round r written t address reached absent
          below in
      let (seen, reach1) =
        Amid-door json cfg k c (all_turns r t x.turns) heard s2 v table
          (later reach (hears (delivered x.env x.message))) ran amid in
      let (sent', serving', reach') =
        service_opens n v u reach1 (view-IsServing k c info.type s2 v seen serving) service in
      (
        sent'
            ∙ ap (cycles k c n)
                (ap (λ (w : View). w.1) seen ∙ sent_to-cycle k c s2.sent s.sent sent),
        serving',
        reach',
      )
