-- ===== src/MockSwitch/Replies.antt =====
-- What the stand-in answers, against what the controller of a door waits for.
use door_switch_svr.Prelude.{
  ℕ, zero, suc, List, [], ◌∷◌, ◌≡◌, refl, Bool, true, false, not, ◌&&◌, ◌||◌, arith, length, All,
  if◌then◌else◌,
}
use door_switch_svr.Prelude.Int.{ℤ, pos, negsuc, u16}
use door_switch_svr.Param.{Text, text}
use door_switch_svr.Poco.{ok, thrown}
use door_switch_svr.Svr.Config.{exit_ok, exit_config}
use door_switch_svr.Controller.{Controller}
use door_switch_svr.Controller.Watchdog.{never}
use door_switch_svr.Controller.Watching.{Event, writes, replies, step}
use door_switch_svr.Controller.Watching
use door_switch_svr.MockSwitch.{
  SwitchConfig, Settings, parse_configuration, Poll, timed_out, poll_thrown, readable, Connection,
  new_connection, ok_reply, pass, run,
}

-- A pass that answers; a pass that ends the loop.
abbrev pub is_answer : Poll → Bool
is_answer (readable (ok (pos (suc n))) (ok u)) = true
is_answer _ = false

abbrev pub is_last : Poll → Bool
is_last timed_out = false
is_last poll_thrown = true
is_last (readable (thrown e) w) = true
is_last (readable (ok (pos zero)) w) = true
is_last (readable (ok (pos (suc n))) (ok u)) = false
is_last (readable (ok (pos (suc n))) (thrown e)) = true
is_last (readable (ok (negsuc n)) w) = false

-- How many passes answer before the first that ends the loop.
abbrev pub answered : List Poll → ℕ
answered [] = 0
answered (p ∷ ps) =
    let rest = answered ps in if is_last p then 0 else (if is_answer p then suc rest else rest)

abbrev pub any_last : List Poll → Bool
any_last [] = false
any_last (p ∷ ps) = is_last p || any_last ps

-- `n` answers on those sent before.
abbrev pub reply_times : ℕ → List Text → List Text
reply_times zero sent = sent
reply_times (suc n) sent = reply_times n (ok_reply ∷ sent)

run_closed : (ps : List Poll) (c : Connection) → c.is_open ≡ false → run ps c ≡ c
unfolding run
run_closed [] c h = refl
run_closed (p ∷ ps) c h = ground arith

run-sent :
    (ps : List Poll) (c : Connection)
    → c.is_open ≡ true
    → c.left ≡ false
    → let c' = run ps c in
      (c'.sent ≡ reply_times (answered ps) c.sent) × (c'.is_open && not c'.left ≡ not (any_last ps))
unfolding run pass
run-sent [] c o l = ground arith
run-sent (p ∷ ps) c o l = ground (arith, run-sent ps (pass p c), run_closed ps (pass p c))

-- On a new connection the stand-in answers "OK!" once for each read of one byte or more, until a read
-- of no bytes, an exception of a read or a write, or one of the poll; it ends with these and with
-- nothing else.
pub mock_answers :
    (ps : List Poll)
    → let c = run ps new_connection in
      (c.sent ≡ reply_times (answered ps) []) × (c.is_open && not c.left ≡ not (any_last ps))
mock_answers ps = run-sent ps new_connection refl refl

-- Commands that are written in full, at these times, each with its answer.
abbrev pub answered_writes : List (List ℕ × ℕ) → List Event
answered_writes [] = []
answered_writes ((bytes, now) ∷ cs) =
    writes bytes (record { error = false; len = length bytes }) now
    ∷ replies false (length ok_reply)
    ∷ answered_writes cs

abbrev pub IsQuietRun : List Bool → Type 0
IsQuietRun = All (λ raised. raised ≡ false)

one_quiet :
    (bytes : List ℕ) (now : ℕ) (c : Controller)
    → c.watch.deadline ≡ never
    → let (c', r) = step (writes bytes (record { error = false; len = length bytes }) now) c in
      let (c'', r') = step (replies false (length ok_reply)) c' in
      (r ≡ false) × (r' ≡ false) × (c''.watch.deadline ≡ never)
unfolding step
one_quiet bytes now c h = ground arith

-- From a controller with no command outstanding, commands that are written in full and each
-- answered by the stand-in raise no error and leave no deadline, however many they are.
pub answers_keep_quiet :
    (cs : List (List ℕ × ℕ)) (c : Controller)
    → c.watch.deadline ≡ never
    → let (c', raised) = Watching.run (answered_writes cs) c in
      IsQuietRun raised × (c'.watch.deadline ≡ never)
unfolding Watching.run
answers_keep_quiet [] c h = (tt, h)
answers_keep_quiet ((bytes, now) ∷ cs) c h =
    let (r, r', d) = one_quiet bytes now c h in
    let (rest, d') = answers_keep_quiet cs _ d in ((r, (r', rest)), d')

-- If ip and port can be read, the stand-in has them in its configuration, the port with its low 16
-- bits, and goes on exactly if both settings are also reported as present.
pub mock_configuration :
    (s : Settings) (cfg : SwitchConfig) (ip : Text) (port : ℤ)
    → s.get_string (text "switch.ip") ≡ ok ip
    → s.get_int (text "switch.port") ≡ ok port
    → ((parse_configuration s cfg).1
        ≡ (if s.has (text "switch.ip") && s.has (text "switch.port") then exit_ok else exit_config))
      × ((parse_configuration s cfg).0 ≡ record { switch_ip = ip; port = u16 port })
unfolding parse_configuration
mock_configuration s cfg ip port i p = ground arith
