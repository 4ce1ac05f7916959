-- ===== src/Serving/Rounds.antt =====
-- Messages for a door of a connected switch, each after the one before it has been served.
use door_switch_svr.Prelude.{
  ℕ, zero, suc, ◌≤◌, List, [], ◌∷◌, ◌≡◌, refl, sym, ◌∙◌, ap, subst, Option, some, All, length,
}
use door_switch_svr.Param.{Text, SwitchInfo, SvrCfg}
use door_switch_svr.Poco.{Json}
use door_switch_svr.Controller.Run.{opening, closing}
use door_switch_svr.Svr.{delivered}
use door_switch_svr.Serving.{Sent, Server, hear, Reach}
use door_switch_svr.Serving.Turns.{and_then, run_door}
use door_switch_svr.Serving.Opens.{command_to}
use door_switch_svr.Serving.Again.{IsServing, first_turn, last_turns}
use door_switch_svr.Serving.Round.{Round, IsRound, message_opens_again, same_proxy}

-- The rounds in turn.
abbrev pub serve_round : Json → SvrCfg → Text → ℕ → Round → Server → Option Server
serve_round json cfg k c x s =
    and_then (run_door k c (last_turns x.turns))
      (run_door k c (first_turn x.turns) (hear json cfg (delivered x.env x.message) s))

abbrev pub serve_rounds : Json → SvrCfg → Text → ℕ → List Round → Server → Option Server
serve_rounds json cfg k c [] s = some s
serve_rounds json cfg k c (x ∷ xs) s =
    and_then (serve_rounds json cfg k c xs) (serve_round json cfg k c x s)

-- `n` times a command to open and one to close, newest first, after those sent before.
abbrev pub cycles : Text → ℕ → ℕ → List Sent → List Sent
cycles k c zero sent = sent
cycles k c (suc n) sent = cycles k c n (command_to k c closing ∷ command_to k c opening ∷ sent)

-- On a connected switch with a door whose thread waits, any number of messages for this door, its
-- channel at most 15, each let through by the proxy and each after the door has closed for the one
-- before, open and close the door once each, if the thread takes each task before its time has run
-- out and its commands are written in full; and the switch is then still connected, and the thread
-- waits for its next task.
pub messages_open_in_turn :
    (json : Json) (cfg : SvrCfg) (info : SwitchInfo) (c : ℕ) (xs : List Round) (s : Server)
    → c ≤ 15
    → Reach json cfg s
    → IsServing info.oid c info.type s
    → All (IsRound json cfg s.proxy info c) xs
    → (s' : Server) × (serve_rounds json cfg info.oid c xs s ≡ some s')
      × (s'.sent ≡ cycles info.oid c (length xs) s.sent)
      × IsServing info.oid c info.type s'
      × Reach json cfg s'
messages_open_in_turn json cfg info c [] s small reach serving rounds =
    (s, refl, refl, serving, reach)
messages_open_in_turn json cfg info c (x ∷ xs) s small reach serving rounds =
    let (s1, s2, _, ran, _, _, _, ran', sent, serving', reach') =
      message_opens_again json cfg info c small s x rounds.0 serving reach in
    let one_round =
      ap (and_then (serve_rounds json cfg info.oid c xs))
        (ap (and_then (run_door info.oid c (last_turns x.turns))) ran ∙ ran') in
    let same = same_proxy json cfg info c small s x rounds.0 serving s1 s2 ran ran' in
    let (s', all, sent', after, reach'') =
      messages_open_in_turn json cfg info c xs s2 small reach' serving'
        (subst (λ p. All (IsRound json cfg p info c) xs) (sym same) rounds.1) in
    (s', one_round ∙ all, sent' ∙ ap (cycles info.oid c (length xs)) sent, after, reach'')
