-- ===== src/Serving/Timeout.antt =====
-- A board that does not answer a command, in the server.
mod Tests
use door_switch_svr.Prelude.{
  ℕ, ◌+◌, ◌≤◌, List, [], ◌∷◌, ◌≡◌, ◌++◌, refl, sym, ◌∙◌, ap, subst, inl, inr, Bool, true, false,
  Option, none, some, Option-cases, All,
}
use door_switch_svr.OrderedMap.{key_ℕ, key_text, find}
use door_switch_svr.OrderedMap.Every.{All-find}
use door_switch_svr.Param.{Text, SvrCfg}
use door_switch_svr.Poco.{Json}
use door_switch_svr.Controller.{Controller, WriteResult}
use door_switch_svr.Controller.Run.{Request, turn}
use door_switch_svr.Controller.Watchdog.{never, reply_limit}
use door_switch_svr.Controller.Written.{IsWritten}
use door_switch_svr.Handler.{Handler}
use door_switch_svr.Handler.Defined.{sender-has_callback}
use door_switch_svr.Handler.Event.{Event, thread_turns, checks, step, none-ne-some}
use door_switch_svr.Handler.Sound.{IsSound}
use door_switch_svr.Handler.Timer.{timer_runs}
use door_switch_svr.Handler.Unanswered.{Awaits, IsSilent, step-Awaits}
use door_switch_svr.Handler.Timeout.{check-retries, turn-Awaits}
use door_switch_svr.Svr.Load.Loaded.{IsTable}
use door_switch_svr.Serving.{Sent, Server, sends, act_on, is_own, Reach}
use door_switch_svr.Serving.Safe.{WasAsked}
use door_switch_svr.Serving.Invariant.{Reach-IsSafe}
use door_switch_svr.Serving.Safety.{handlers_retry}
use door_switch_svr.Serving.Turns.{and_then, some-inj, Reach-act_on}
use door_switch_svr.Serving.Elsewhere.{Amid, Amid-alone}
use door_switch_svr.Serving.Apart.{run_events, events_of, View, view, run_alone, act_on_own}
use door_switch_svr.Serving.Apart.Order.{run_events_alone}

-- The next event of a handler that runs alone.
alone_step :
    (k : Text) (e : Event) (es : List Event) (h : Handler) (sent : List Sent) (v : View)
    → run_alone k (e ∷ es) (some h, sent) ≡ some v
    → (h' : Handler) × (step e h ≡ some h')
      × (run_alone k es (some h', sends k e h ++ sent) ≡ some v)
alone_step k e es h sent v ran =
    let rest = λ (h' : Handler). run_alone k es (some h', sends k e h ++ sent) in
    elim (Option-cases (step e h)) [
      | inl stuck ↦ absurd (none-ne-some (sym (ap (and_then rest) stuck) ∙ ran))
      | inr (h', one) ↦ (h', one, sym (ap (and_then rest) one) ∙ ran)
    ]

alone-Awaits :
    (k : Text) (n d : ℕ) (es : List Event) (h : Handler) (sent : List Sent) (v : View)
    → All (IsSilent n) es
    → run_alone k es (some h, sent) ≡ some v
    → Awaits n d h
    → (h' : Handler) × (v.0 ≡ some h') × Awaits n d h'
alone-Awaits k n d [] h sent v silent ran a = (h, sym (ap (λ (u : View). u.0) (some-inj ran)), a)
alone-Awaits k n d (e ∷ es) h sent v silent ran a =
    let (h', one, rest) = alone_step k e es h sent v ran in
    alone-Awaits k n d es h' (sends k e h ++ sent) v silent.1 rest
      (step-Awaits n d e h h' silent.0 one a)

-- One event of a switch, on its handler.
act_on-step :
    (k : Text) (e : Event) (h : Handler) (s s' : Server)
    → find k s.engine.handlers ≡ some h
    → act_on k e s ≡ some s'
    → (h' : Handler) × (step e h ≡ some h') × (find k s'.engine.handlers ≡ some h')
act_on-step k e h s s' at ran =
    let sent = (view k s).1 in
    let alone : run_alone k (e ∷ []) (some h, sent) ≡ some (view k s') =
      ap (λ o. run_alone k (e ∷ []) (o, sent)) (sym at) ∙ act_on_own e k [] s s' ran in
    let (h', one, rest) = alone_step k e [] h sent (view k s') alone in
    (h', one, sym (ap (λ (u : View). u.0) (some-inj rest)))

-- A board that does not answer is connected anew. In any state that the server can come to, let the
-- thread of a door send a command and write it in full, while no other command of this door is
-- without an answer. Let anything follow (`Amid`), in any order: more messages for this door, messages
-- for other switches that have a handler or an id above all ids with one, and events of all handlers
-- of which none is the end of the door's read, or a call for its deadline. Then a call for its deadline that
-- comes thirty seconds after the command or later leaves the switch disconnected, with its reconnect
-- timer running.
pub unanswered_command_retries :
    (json : Json) (cfg : SvrCfg) (k : Text) (n : ℕ) (result : WriteResult) (t now : ℕ) (q : Request)
    (h : Handler) (c : Controller) (es : List Event) (s s1 s2 s3 : Server)
    → IsTable cfg.map_oid_switch_info
    → Reach json cfg s
    → find k s.engine.handlers ≡ some h
    → find n h.controllers ≡ some c
    → c.watch.deadline ≡ never
    → (turn h.switch_info.type t c.worker).1 ≡ some q
    → IsWritten result
    → act_on k (thread_turns n result t) s ≡ some s1
    → All (IsSilent n) es
    → Amid json cfg k es s1 s2
    → t + reply_limit ≤ now
    → act_on k (checks n now) s2 ≡ some s3
    → (h3 : Handler) × (find k s3.engine.handlers ≡ some h3)
      × (h3.connected ≡ false)
      × (timer_runs h3.calls ≡ true)
unanswered_command_retries json cfg k n result t now q h c es s s1 s2 s3 table reach at door idle
      sends written first silent amid late last =
    let safe = Reach-IsSafe json cfg s table reach in
    let sound =
      All-find (λ (x : Text × Handler). IsSound (WasAsked s.asked) x.1) k h s.engine.handlers at
        safe.sound in
    let callback : c.has_callback ≡ true =
      elim (sender-has_callback (WasAsked s.asked) n t h sound c door) [
        | inl quiet ↦ absurd (none-ne-some (sym quiet ∙ sends))
        | inr (callback, _) ↦ callback
      ] in
    let (h1, turned, at1) = act_on-step k (thread_turns n result t) h s s1 at first in
    let awaits = turn-Awaits n result t q c h h1 door callback idle sends written turned in
    let reach1 = Reach-act_on json cfg k (thread_turns n result t) s s1 refl reach first in
    let (ran, reach2) = Amid-alone json cfg k es s1 s2 table reach1 amid in
    let alone = ap (λ o. run_alone k es (o, (view k s1).1)) (sym at1) ∙ ran in
    let (h2, at2, awaits2) =
      alone-Awaits k n (t + reply_limit) es h1 (view k s1).1 (view k s2) silent alone awaits in
    let (_, (runs, _)) = handlers_retry json cfg table s2 reach2 k h2 at2 in
    let (h3, checked, at3) = act_on-step k (checks n now) h2 s2 s3 at2 last in
    let (disconnected, timer) =
      check-retries n (t + reply_limit) now h2 h3 awaits2 late runs checked in
    (h3, at3, disconnected, timer)
