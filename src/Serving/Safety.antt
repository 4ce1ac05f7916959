-- ===== src/Serving/Safety.antt =====
-- What the invariant of the server means: for the commands, for the handlers, and for the turns of the
-- doors' threads.
use door_switch_svr.Prelude.{
  ℕ, ◌≤◌, List, [], ◌∷◌, ◌≡◌, ◌∙◌, sym, ap, subst, ◌⊎◌, inl, inr, true, false, not, ◌||◌, none,
  some, arith, All, All-mono,
}
use door_switch_svr.OrderedMap.{key_ℕ, key_text, find}
use door_switch_svr.OrderedMap.Every.{All-find}
use door_switch_svr.Param.{Text, SwitchInfo, SvrCfg}
use door_switch_svr.Poco.{Json}
use door_switch_svr.Controller.{Controller, WriteResult}
use door_switch_svr.Controller.Run.{overflows, turn}
use door_switch_svr.Handler.{Handler, is_connect, new_handler, thread_turn}
use door_switch_svr.Handler.Defined.{sender-has_callback, thread_turn-some}
use door_switch_svr.Handler.Timer.{timer_runs}
use door_switch_svr.Handler.Sound.{IsSound}
use door_switch_svr.Handler.Recovery.{has_ended}
use door_switch_svr.Handler.Alive.{IsAlive}
use door_switch_svr.Engine.Invariant.{IsServed}
use door_switch_svr.Svr.Load.Loaded.{IsTable}
use door_switch_svr.Serving.{Sent, Server, Reach}
use door_switch_svr.Serving.Safe.{WasAsked, IsDoorOf}
use door_switch_svr.Serving.Invariant.{Reach-IsSafe}

IsDoorOf-asked :
    (cfg : SvrCfg) (asked : List (Text × ℕ)) (c : ℕ)
    → All (IsDoorOf cfg) asked
    → WasAsked asked c
    → (k : Text) × IsDoorOf cfg (k, c)
IsDoorOf-asked cfg [] c d w = elim w [ ]
IsDoorOf-asked cfg (a ∷ asked) c d (inl q) = (a.0, subst (λ x. IsDoorOf cfg (a.0, x)) q d.0)
IsDoorOf-asked cfg (a ∷ asked) c d (inr w) = IsDoorOf-asked cfg asked c d.1 w

abbrev pub HasSmallBoards : SvrCfg → Type 0
HasSmallBoards cfg =
    All (λ (entry : Text × SwitchInfo). entry.1.channels ≤ 15) cfg.map_oid_switch_info

pub door-small :
    (cfg : SvrCfg)
    → HasSmallBoards cfg
    → (c : ℕ) → (k : Text) × IsDoorOf cfg (k, c)
    → (1 ≤ c) × (c ≤ 15)
door-small cfg small c (k, (info, found, l, u)) =
    let bound : info.channels ≤ 15 =
      All-find (λ (entry : Text × SwitchInfo). entry.1.channels ≤ 15) k info cfg.map_oid_switch_info
        found small in
    (l, omega (arith, u, bound))

-- The reconnect timer runs if `m_isTimerOn` is set; the handler is connected, or its timer runs, or the
-- last call it made is the one by which `onReconnTimer` ends the timer, or it is as it was made.
abbrev pub Retries : Handler → Type 0
Retries h =
    (not h.timer_on || timer_runs h.calls ≡ true)
    × ((is_connect h || (timer_runs h.calls || has_ended h.calls) ≡ true)
        ⊎ (h ≡ new_handler h.switch_info))

fresh-timer_on : (h : Handler) → h ≡ new_handler h.switch_info → h.timer_on ≡ false
unfolding new_handler
fresh-timer_on h f = ap (λ g. g.timer_on) f

alive-Retries : (h : Handler) → IsAlive h → Retries h
alive-Retries h (inl j) = (j.runs, inl j.retries)
alive-Retries h (inr f) = (ground (arith, fresh-timer_on h f), inr f)

module _ (json : Json) (cfg : SvrCfg) (table : IsTable cfg.map_oid_switch_info) (s : Server)
    (reach : Reach json cfg s) where
  -- In every state that the server can come to, by any order of messages, timer calls, turns of
  -- the doors' threads, replies and timeouts, every command that it has sent was for a channel
  -- number that a message had asked for, and some switch of the configuration has a door of that
  -- number.
  pub commands_asked :
      All
        (λ (x : Sent). WasAsked s.asked x.channel × ((k : Text) × IsDoorOf cfg (k, x.channel)))
        s.sent
  commands_asked =
      let i = Reach-IsSafe json cfg s table reach in
      All-mono (λ (x : Sent). WasAsked s.asked x.channel) _ s.sent
        (λ x w. (w, IsDoorOf-asked cfg s.asked x.channel i.allowed w)) i.justified

  -- In every state that the server can come to, a handler is for the switch of the configuration
  -- whose id it stands under; its reconnect timer runs if `m_isTimerOn` is set; and it is connected,
  -- or retries, or is as it was made, or the last call it made is the one by which `onReconnTimer`
  -- ends the timer after it has connected.
  pub handlers_retry :
      (k : Text) (h : Handler)
      → find k s.engine.handlers ≡ some h
      → (find k cfg.map_oid_switch_info ≡ some h.switch_info) × Retries h
  handlers_retry k h found =
      let i = Reach-IsSafe json cfg s table reach in
      let (info, entry, kept) = All-find (IsServed cfg) k h s.engine.handlers found i.well.served in
      let alive =
        All-find (λ (x : Text × Handler). IsAlive x.1) k h s.engine.handlers found i.alive in
      (entry ∙ ap some (sym kept.switch), alive-Retries h alive)

  module _ (small : HasSmallBoards cfg) (k : Text) (h : Handler) (channel : ℕ) (now : ℕ)
      (found : find k s.engine.handlers ≡ some h) where
    turns-IsSound : IsSound (WasAsked s.asked) h
    turns-IsSound =
        let i = Reach-IsSafe json cfg s table reach in
        All-find (λ (x : Text × Handler). IsSound (WasAsked s.asked) x.1) k h s.engine.handlers
          found i.sound

    thread_turn-defined :
        (result : WriteResult)
        → ((c : Controller) → find channel h.controllers ≡ some c → overflows now c.worker ≡ false)
        → (h' : Handler) × (thread_turn channel result now h ≡ some h')
    thread_turn-defined result calm =
        let i = Reach-IsSafe json cfg s table reach in
        thread_turn-some (WasAsked s.asked) channel now h turns-IsSound
          (λ c w. door-small cfg small c (IsDoorOf-asked cfg s.asked c i.allowed w)) calm result

    -- If no switch of the configuration has more than 15 channels, then in every state that the server
    -- can come to, every turn of every door's thread in which the subtraction for `realWait` does not
    -- overflow `int` is defined, whatever becomes of its write: the power of two in the command that it
    -- sends fits `int16_t`. And a thread that sends a command has its error callback.
    pub commands_are_defined :
        (result : WriteResult) (c : Controller)
        → find channel h.controllers ≡ some c
        → overflows now c.worker ≡ false
        → ((h' : Handler) × (thread_turn channel result now h ≡ some h'))
          × (((turn h.switch_info.type now c.worker).1 ≡ none) ⊎ (c.has_callback ≡ true))
    commands_are_defined result c at calm = (
      thread_turn-defined result (λ d found'.
          subst (λ (x : Controller). overflows now x.worker ≡ false) (same_door d found') calm),
      by_ready (sender-has_callback (WasAsked s.asked) channel now h turns-IsSound c at),
    )
      where
        same_door : (d : Controller) → find channel h.controllers ≡ some d → c ≡ d
        same_door d found' = cc

        by_ready :
            ((turn h.switch_info.type now c.worker).1 ≡ none)
              ⊎ ((c.has_callback ≡ true) × WasAsked s.asked c.channel)
            → ((turn h.switch_info.type now c.worker).1 ≡ none) ⊎ (c.has_callback ≡ true)
        by_ready (inl silent) = inl silent
        by_ready (inr (callback, w)) = inr callback
