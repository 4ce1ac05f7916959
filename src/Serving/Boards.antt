-- ===== src/Serving/Boards.antt =====
-- From the messages to the relays: the boards of all switches, under the commands that arrive there, in
-- the order in which they were sent.
use Prim.Native.Nat.{Ordering}
use door_switch_svr.Prelude.{
  ℕ, ◌≤◌, List, [], ◌∷◌, ◌≡◌, subst, refl, ◌∙◌, Bool, true, false, ◌&&◌, arith, All, All-mono, ◌==◌,
  if◌then◌else◌,
}
use door_switch_svr.OrderedMap.{cmp, key_text}
use door_switch_svr.Param.{Text, SvrCfg}
use door_switch_svr.Poco.{Json}
use door_switch_svr.Controller.{command}
use door_switch_svr.Controller.Board.{Relays, obey, is_opening, obey-command}
use door_switch_svr.Svr.Load.Loaded.{IsTable}
use door_switch_svr.Serving.{Sent, Server, Reach}
use door_switch_svr.Serving.Safe.{WasAsked}
use door_switch_svr.Serving.Routed.{
  OrderedReach, ordered-Reach, WasAskedFor, IsRoutedCommand, commands_routed,
}
use door_switch_svr.Serving.Safety.{HasSmallBoards, door-small, commands_asked}

abbrev pub is_for : Text → Sent → Bool
is_for k x = elim (cmp x.switch_id k) [ Ordering.eq ↦ true | _ ↦ false ]

-- The relays of the board of switch `k` under commands, newest first; at the start all are closed.
abbrev pub relays_of : Text → List Sent → Relays
relays_of k [] n = false
relays_of k (x ∷ sent) n =
    if is_for k x
    then obey (command x.request x.channel) (relays_of k sent) n
    else relays_of k sent n

-- Whether the last command for the door was to open it.
abbrev pub last_opens : Text → ℕ → List Sent → Bool
last_opens k n [] = false
last_opens k n (x ∷ sent) =
    if is_for k x && (x.channel == n) then is_opening x.request else last_opens k n sent

-- The commands that arrive: `true` stands for one that does, and what the list of marks does not reach is
-- lost.
abbrev pub arriving : List Bool → List Sent → List Sent
arriving [] sent = []
arriving (arrives ∷ marks) [] = []
arriving (true ∷ marks) (x ∷ sent) = x ∷ arriving marks sent
arriving (false ∷ marks) (x ∷ sent) = arriving marks sent

All-arriving :
    (P : Sent → Type 0) (marks : List Bool) (sent : List Sent)
    → All P sent
    → All P (arriving marks sent)
All-arriving P [] sent a = tt
All-arriving P (arrives ∷ marks) [] a = tt
All-arriving P (true ∷ marks) (x ∷ sent) a = (a.0, All-arriving P marks sent a.1)
All-arriving P (false ∷ marks) (x ∷ sent) a = All-arriving P marks sent a.1

abbrev pub HasRelay : Sent → Type 0
HasRelay x = (1 ≤ x.channel) × (x.channel ≤ 15)

relays-last :
    (k : Text) (n : ℕ) (sent : List Sent)
    → 1 ≤ n
    → n ≤ 16
    → All HasRelay sent
    → relays_of k sent n ≡ last_opens k n sent
relays-last k n [] l u a = refl
relays-last k n (x ∷ sent) l u a =
    let (lc, uc) = a.0 in
    let this = obey-command x.channel n lc uc l u (relays_of k sent) x.request in
    ground (arith, this, relays-last k n sent l u a.1)

-- The command is none for this door.
abbrev IsOther : Text → ℕ → Sent → Type 0
IsOther k n x = ¬ ((x.switch_id ≡ k) × (x.channel ≡ n))

never-opens :
    (k : Text) (n : ℕ) (sent : List Sent) → All (IsOther k n) sent → last_opens k n sent ≡ false
never-opens k n [] a = refl
never-opens k n (x ∷ sent) a =
    ground (arith, a.0, key_text.eq_iff x.switch_id k, never-opens k n sent a.1)

module _ (json : Json) (cfg : SvrCfg) (table : IsTable cfg.map_oid_switch_info) (s : Server)
    (reach : Reach json cfg s) (small : HasSmallBoards cfg) (marks : List Bool) (k : Text) (n : ℕ)
    (lower : 1 ≤ n) (upper : n ≤ 16) where
  -- If no switch of the configuration has more than 15 channels, then in every state that the
  -- server can come to, and whichever of the commands that it has sent have arrived, in order, at
  -- boards that started with all relays closed: a relay of a board is open exactly if the last
  -- command that arrived there for the relay's channel was to open it.
  pub relays_follow : relays_of k (arriving marks s.sent) n ≡ last_opens k n (arriving marks s.sent)
  relays_follow =
      let in_range =
        All-mono _ HasRelay s.sent (λ x w. door-small cfg small x.channel w.1)
          (commands_asked json cfg table s reach) in
      relays-last k n (arriving marks s.sent) lower upper
        (All-arriving HasRelay marks s.sent in_range)

  -- If no switch of the configuration has more than 15 channels, then in every state that the
  -- server can come to, and whichever of the commands that it has sent have arrived, in order, at
  -- boards that started with all relays closed: a relay whose number no message has asked for is
  -- closed, on every board.
  pub unasked_stays_closed : ¬ WasAsked s.asked n → relays_of k (arriving marks s.sent) n ≡ false
  unasked_stays_closed unasked =
      let others =
        All-mono _ (IsOther k n) s.sent
          (λ x w other. unasked (subst (WasAsked s.asked) other.1 w.0))
          (commands_asked json cfg table s reach) in
      relays_follow
      ∙ never-opens k n (arriving marks s.sent) (All-arriving (IsOther k n) marks s.sent others)

-- If no switch of the configuration has more than 15 channels, and each request was for a switch
-- that had a handler or one with an id above all that had one, then in every state that the server
-- can come to, and whichever of the commands that it has sent have arrived, in order, at boards
-- that started with all relays closed: a relay of a board is closed unless a message has asked for
-- this door of this switch.
pub unasked_door_stays_closed :
    (json : Json) (cfg : SvrCfg) (s : Server)
    → IsTable cfg.map_oid_switch_info
    → OrderedReach json cfg s
    → HasSmallBoards cfg
    → (marks : List Bool) (k : Text) (n : ℕ) → 1 ≤ n
    → n ≤ 16
    → ¬ WasAskedFor s.asked k n
    → relays_of k (arriving marks s.sent) n ≡ false
unasked_door_stays_closed json cfg s table reach small marks k n lower upper unasked =
    let others =
      All-mono (IsRoutedCommand s.asked) (IsOther k n) s.sent
        (λ x w other. unasked (
          subst (λ j. WasAskedFor s.asked j n) other.0
            (subst (λ c. WasAskedFor s.asked x.switch_id c) other.1 w)))
        (commands_routed json cfg s table reach) in
    relays_follow json cfg table s (ordered-Reach json cfg s reach) small marks k n lower upper
    ∙ never-opens k n (arriving marks s.sent) (All-arriving (IsOther k n) marks s.sent others)
