-- ===== src/MockSwitch.antt =====
-- testsuite/SeetaMockSwitch/src: the program that stands in for a switch board in tests. The
-- configuration of Poco::Util and the sockets are parameters; calls of the TCP server are recorded,
-- newest first.
pub mod Replies
mod Tests
use door_switch_svr.Prelude.{
  ℕ, zero, suc, List, [], ◌∷◌, Bool, true, false, not, ◌||◌, if◌then◌else◌,
}
use door_switch_svr.Prelude.Int.{ℤ, pos, negsuc, u16}
use door_switch_svr.Param.{Text, text}
use door_switch_svr.Poco.{Result, ok, thrown}
use door_switch_svr.Svr.Config.{ExitCode, exit_ok, exit_config, is_exit_ok}

pub record SwitchConfig : Type 0 where
  pub switch_ip : Text
  pub port : ℕ

-- `has(key)`, `getString(key)`, `getInt(key)`, `getInt(key, default)`.
pub record Settings : Type 0 where
  pub has : Text → Bool
  pub get_string : Text → Result Text
  pub get_int : Text → Result ℤ
  pub get_int_or : Text → ℤ → Result ℤ

-- The two statements behind the test; `res` is what the test left.
read_ip_port : Settings → ExitCode → SwitchConfig → SwitchConfig × ExitCode
read_ip_port s res cfg = elim (s.get_string (text "switch.ip")) [
  | thrown e ↦ (cfg, exit_config)
  | ok ip ↦ elim (s.get_int (text "switch.port")) [
    | thrown e ↦ (record cfg { switch_ip = ip }, exit_config)
    | ok port ↦ (record cfg { switch_ip = ip; port = u16 port }, res)
  ]
]

unfoldable pub parse_configuration : Settings → SwitchConfig → SwitchConfig × ExitCode
unfolding read_ip_port
parse_configuration s cfg =
    let res : ExitCode =
      if not (s.has (text "switch.ip")) || not (s.has (text "switch.port"))
      then exit_config
      else exit_ok in
    read_ip_port s res cfg

pub data ServerCall : Type 0 where
  add_capacity set_max_queued set_max_threads : ℤ → ServerCall
  bind : ℕ → ServerCall
  start stop : ServerCall

-- From the read of the two limits on; `bound` is the result of the making of the server socket.
listen : Result (Unit {0}) → Result ℤ → Result ℤ → SwitchConfig → List ServerCall × Result ExitCode
listen bound (thrown e) max_threads cfg = ([], thrown e)
listen bound (ok max_queued) (thrown e) cfg = ([], thrown e)
listen bound (ok max_queued) (ok max_threads) cfg =
    let calls =
      bind cfg.port
      ∷ set_max_threads max_threads
      ∷ set_max_queued max_queued
      ∷ add_capacity max_threads
      ∷ [] in
    elim bound [ thrown e ↦ (calls, thrown e) | ok u ↦ (stop ∷ start ∷ calls, ok exit_ok) ]

-- A result that is thrown is an exception that leaves `main`.
unfoldable pub main :
    Settings
    → (ℕ → Result (Unit {0}))
    → SwitchConfig
    → SwitchConfig × List ServerCall × Result ExitCode
unfolding parse_configuration listen
main s bound cfg =
    let (cfg', res) = parse_configuration s cfg in
    if is_exit_ok res
    then (let (calls, result) =
          listen (bound cfg'.port) (s.get_int_or (text "MAX_LISTEN_QUEUE") (pos 4096))
            (s.get_int_or (text "MAX_POCO_THREADS") (pos 1000)) cfg' in
        (cfg', calls, result))
    else (cfg', [], ok res)

-- What one pass of the loop meets: a poll that times out or throws, or a socket that can be read,
-- with the result of the read and of the write that may follow.
pub data Poll : Type 0 where
  timed_out poll_thrown : Poll
  readable : Result ℤ → Result (Unit {0}) → Poll

-- `left` is an exception that leaves `run`.
pub record Connection : Type 0 where
  pub is_open : Bool
  pub left : Bool
  pub sent : List Text

abbrev pub new_connection : Connection
new_connection = record { is_open = true; left = false; sent = [] }

abbrev pub ok_reply : Text
ok_reply = text "OK!"

received : ℤ → Result (Unit {0}) → Connection → Connection
received (pos zero) w c = record c { is_open = false }
received (pos (suc n)) (ok u) c = record c { sent = ok_reply ∷ c.sent }
received (pos (suc n)) (thrown e) c = record c { is_open = false }
received (negsuc n) w c = c

unfoldable pub pass : Poll → Connection → Connection
unfolding received
pass timed_out c = c
pass poll_thrown c = record c { left = true }
pass (readable (thrown e) w) c = record c { is_open = false }
pass (readable (ok n) w) c = received n w c

-- The loop, on the polls that it meets.
unfoldable pub run : List Poll → Connection → Connection
run [] c = c
run (p ∷ ps) c =
    let c' = pass p c in
    let rest = run ps c' in if c.is_open then (if c'.left then c' else rest) else c
