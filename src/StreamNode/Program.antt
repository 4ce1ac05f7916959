-- ===== src/StreamNode/Program.antt =====
-- testsuite/SeetaMockStreamNode/test_main.cpp: the options, the rows of the test file, and the start
-- of a thread for each node. The TCLAP command line, the CSV reader and the thread pool are
-- parameters.
use door_switch_svr.Prelude.{
  ℕ, zero, suc, ◌+◌, List, [], ◌∷◌, ◌++◌, Bool, true, false, Option, none, some, if◌then◌else◌,
}
use door_switch_svr.Prelude.Int.{ℤ, pos, u16}
use door_switch_svr.Param.{Text}
use door_switch_svr.Poco.{Result, ok, thrown, ◌>>=◌}
use door_switch_svr.StreamNode.{
  CmdParam, Node, new_node, ProxyCall, lib_init, lib_cleanup, new_proxy, destroy,
}
use door_switch_svr.StreamNode.Stoi.{stoi}

-- What `cmd.parse` leaves in the four arguments.
pub record Args : Type 0 where
  pub ip : Text
  pub port : ℤ
  pub topic : Text
  pub file_path : Text

unfoldable pub parse_options : Result Args → CmdParam → CmdParam × Bool
parse_options (ok a) param = (
  record {
    mosq_ip = a.ip;
    mosq_port = u16 a.port;
    test_file_path = a.file_path;
    mosq_topic = a.topic;
  },
  true,
)
parse_options (thrown e) param = (param, false)

pub record Row : Type 0 where
  pub switch_id : Text
  pub channel : Text
  pub close : Text
  pub interval : Text

-- `CSVReader(path)`, `read_header(…)`, and `read_row(…)` by the number of calls before it; `none` is
-- the end of the file.
pub record CsvReader : Type 0 where
  pub open_file : Text → Result (Unit {0})
  pub read_header : Text → Result (Unit {0})
  pub read_row : Text → ℕ → Result (Option Row)

unfoldable pub node_of : CmdParam → Row → Result Node
node_of param row = do
  channel ← stoi row.channel
  close ← stoi row.close
  interval ← stoi row.interval
  ok (new_node row.switch_id channel close interval param)

-- The loop over the rows; `none` if the fuel ran out. An exception keeps the nodes made before.
unfoldable pub read_rows : CsvReader → CmdParam → ℕ → ℕ → List Node → Option (List Node)
unfolding node_of
read_rows reader param zero k nodes = none
read_rows reader param (suc fuel) k nodes = elim (reader.read_row param.test_file_path k) [
  | thrown e ↦ some nodes
  | ok none ↦ some nodes
  | ok (some row) ↦ elim (node_of param row) [
    | thrown e ↦ some nodes
    | ok node ↦ read_rows reader param fuel (k + 1) (nodes ++ (node ∷ []))
  ]
]

unfoldable pub read_nodes : CsvReader → CmdParam → ℕ → Option (List Node)
unfolding read_rows
read_nodes reader param fuel =
    elim (do
      opened ← reader.open_file param.test_file_path
      reader.read_header param.test_file_path) [
        | thrown e ↦ some []
        | ok u ↦ read_rows reader param fuel 0 []
      ]

-- `Poco::ThreadPool`: `start` gives `none` for the exception that no thread is available.
pub record ThreadPool : Type 1 where
  pub Pool : Type 0
  pub new_pool : Pool
  pub start : Node → Pool → Option Pool
  pub capacity : Pool → ℕ
  pub add_capacity : ℕ → Pool → Pool

-- How the program ends, or does not: it returns before, an exception leaves it, the pool runs, or
-- there was nothing to run.
pub data Outcome (Pool : Type 0) : Type 0 where
  returned : Outcome Pool
  escaped : Outcome Pool
  joining : Pool → List ProxyCall → Outcome Pool
  finished : List ProxyCall → Outcome Pool

-- From `joinAll` on, with the calls of the MQTT client so far: with a node it does not return. Without
-- one the client is destroyed behind `lib_cleanup`.
unfoldable pub at_join : {Pool : Type 0} → List Node → Pool → List ProxyCall → Outcome Pool
unfolding destroy
at_join [] p calls = finished (destroy (lib_cleanup ∷ calls))
at_join (node ∷ nodes) p calls = joining p calls

module _ (threads : ThreadPool) where
  open threads use {Pool, new_pool, start, capacity, add_capacity}

  unfoldable pub start_again : Node → Pool → Option Pool → Option Pool
  start_again node p none = start node (add_capacity (capacity p) p)
  start_again node p (some q) = some q

  unfoldable pub start_node : Node → Pool → Option Pool
  unfolding start_again
  start_node node p = start_again node p (start node p)

  unfoldable pub start_all : List Node → Pool → Option Pool
  unfolding start_node
  start_all [] p = some p
  start_all (node ∷ nodes) p = elim (start_node node p) [ none ↦ none | some q ↦ start_all nodes q ]

  -- `none`: the rows did not end within the fuel.
  unfoldable pub main : Result Args → CmdParam → CsvReader → ℕ → Option (Outcome Pool)
  unfolding parse_options read_nodes start_all new_proxy at_join
  main args unset reader fuel =
      let (param, good) = parse_options args unset in
      if good
      then elim (read_nodes reader param fuel) [
        | none ↦ none
        | some nodes ↦
            let calls = new_proxy param.mosq_ip (pos param.mosq_port) (lib_init ∷ []) in
            elim (start_all nodes new_pool) [
              | none ↦ some escaped
              | some p ↦ some (at_join nodes p calls)
            ]
      ]
      else some returned
