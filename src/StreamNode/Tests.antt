-- ===== src/StreamNode/Tests.antt =====
-- The theorems on the sending program at concrete values: a JSON object as two functions of its keys,
-- with a text that lists the fields of a request, and a thread pool that counts its threads.
use Prim.Native.Nat.{Ordering}
use door_switch_svr.Prelude.{
  true, false, ℕ, zero, suc, ◌+◌, List, [], ◌∷◌, ◌++◌, ◌≡◌, refl, ◌≢◌, Option, none, some, arith,
  ap, All, length, ltb, map, if◌then◌else◌,
}
use door_switch_svr.Prelude.Int.{ℤ, pos}
use door_switch_svr.OrderedMap.{cmp, key_text, compare_text, find}
use door_switch_svr.OrderedMap.Laws.{cmp_self}
use door_switch_svr.Param.{Text, text, SwitchInfo, SvrCfg, default_svr_cfg, direct_control_switch}
use door_switch_svr.Poco.{Json, JsonWriter, Result, ok, thrown}
use door_switch_svr.Mqtt.{Proxy}
use door_switch_svr.StreamNode.{
  CmdParam, Node, new_node, new_proxy, loop_start, connect, lib_init, root_obj, run,
}
use door_switch_svr.Controller.{WriteResult}
use door_switch_svr.Engine.{Surroundings}
use door_switch_svr.Svr.{delivered}
use door_switch_svr.Serving.{hear, new_server}
use door_switch_svr.StreamNode.Opens.{IsCycle, first_message, node_opens_door}
use door_switch_svr.StreamNode.Request.{IsJson, Reaches, request_of, published_asks}
use door_switch_svr.StreamNode.Stoi.{stoi}
use door_switch_svr.StreamNode.Program.{
  Args, Row, CsvReader, node_of, ThreadPool, joining, at_join, main, parse_options,
}
use door_switch_svr.StreamNode.Starts.{IsThreadPool, nodes_before, main_starts}

record Fields : Type 0 where
  strings : Text → Result Text
  ints : Text → Result ℤ

-- The function with one more value.
abbrev put : {A : Type 0} → Text → A → (Text → Result A) → Text → Result A
put j a f k = elim (cmp j k) [ Ordering.eq ↦ ok a | _ ↦ f k ]

abbrev no_fields : Fields
no_fields = record { strings = λ k. thrown []; ints = λ k. thrown [] }

abbrev request_fields : Text → ℕ → ℕ → Fields
request_fields id channel close = record {
  strings = put (text "switch_id") id no_fields.strings;
  ints = put (text "close") (pos close) (put (text "channel") (pos channel) no_fields.ints);
}

abbrev pred : ℕ → ℕ
pred zero = zero
pred (suc n) = n

abbrev number : Result ℤ → ℕ
number (ok (pos n)) = n
number _ = 0

abbrev string : Result Text → Text
string (ok s) = s
string (thrown e) = []

abbrev shown : Fields → Text
shown o =
    suc (number (o.ints (text "channel")))
    ∷ suc (number (o.ints (text "close")))
    ∷ map suc (string (o.strings (text "switch_id")))

abbrev parsed_text : Text → Result Fields
parsed_text (a ∷ b ∷ id) = ok (request_fields (map pred id) (pred a) (pred b))
parsed_text _ = thrown []

abbrev json : Json
json = record {
  Value = Fields;
  Object = Fields;
  parse = parsed_text;
  extract = λ o. ok o;
  get_string = λ o k. o.strings k;
  get_int = λ o k. o.ints k;
}

abbrev writer : JsonWriter json
writer = record {
  empty = no_fields;
  set_string = λ k s o. record o { strings = put k s o.strings };
  set_int = λ k n o. record o { ints = put k n o.ints };
  stringify = shown;
}

put_self : {A : Type 0} (k : Text) (a : A) (f : Text → Result A) → put k a f k ≡ ok a
put_self k a f = ground (arith, cmp_self k)

put_ne : {A : Type 0} (k j : Text) (a : A) (f : Text → Result A) → k ≢ j → put j a f k ≡ f k
put_ne k j a f ne = ground (arith, key_text.eq_iff j k)

back : (id : Text) → map pred (map suc id) ≡ id
back [] = refl
back (b ∷ id) = ap (λ r. b ∷ r) (back id)

no_zero_suc : (id : Text) → All (λ b. b ≢ 0) (map suc id)
no_zero_suc [] = tt
no_zero_suc (b ∷ id) = ((λ e. absurd (omega arith)), no_zero_suc id)

json-IsJson : IsJson json writer
unfolding root_obj compare_text
json-IsJson = record {
  get_string-set = λ k s o. put_self k s o.strings;
  get_int-set = λ k n o. put_self k n o.ints;
  get_string-set_int = λ k j n o ne. refl;
  get_int-set_int = λ k j n o ne. put_ne k j n o.ints ne;
  parsed = λ n. request_fields n.switch_id n.channel n.close_after_ms;
  parse-stringify =
      λ n. ap (λ id. ok (request_fields id n.channel n.close_after_ms)) (back n.switch_id);
  extract-parsed = λ n. refl;
  no_zero =
      λ n. ((λ e. absurd (omega arith)), ((λ e. absurd (omega arith)), no_zero_suc n.switch_id));
}

abbrev options : CmdParam
options = record {
  mosq_ip = text "127.0.0.1";
  mosq_port = 1883;
  test_file_path = text "f";
  mosq_topic = text "seeta_switch_open";
}

abbrev board : SwitchInfo
board = record {
  oid = text "a";
  ip = text "10.0.0.7";
  channels = 8;
  port = 6000;
  type = direct_control_switch;
}

abbrev node : Node
node = record {
  switch_id = text "a";
  channel = 2;
  close_after_ms = 3000;
  interval_ms = 500;
  param = options;
}

abbrev config : SvrCfg
config = record default_svr_cfg { map_oid_switch_info = (text "a", board) ∷ [] }

abbrev proxy : Proxy
proxy = record { mqtt_cfg = config.mqtt_cfg; calls = [] }

published_asks_example :
    All (Reaches json proxy config (request_of node) board 2) (run json writer 3 node)
unfolding find compare_text
published_asks_example =
    published_asks json writer json-IsJson node proxy config board 3 refl
      ((tt, tt), ((refl, omega arith, omega arith), tt)) refl (omega arith) (omega arith)

abbrev row : Text → Row
row channel = record {
  switch_id = text "a";
  channel = channel;
  close = text "3000";
  interval = text " 500x";
}

abbrev row_at : ℕ → Option Row
row_at zero = some (row (text "2"))
row_at (suc zero) = some (row (text "-1"))
row_at (suc (suc n)) = none

abbrev reader : CsvReader
reader = record {
  open_file = λ file. ok tt;
  read_header = λ file. ok tt;
  read_row = λ file k. ok (row_at k);
}

-- A pool of the nodes that run and the number of its threads.
abbrev threads : ThreadPool
threads = record {
  Pool = List Node × ℕ;
  new_pool = ([], 1);
  start = λ n p. if ltb (length p.0) p.1 then some (p.0 ++ (n ∷ []), p.1) else none;
  capacity = λ p. p.1;
  add_capacity = λ n p. (p.0, p.1 + n);
}

threads-IsThreadPool : IsThreadPool threads
threads-IsThreadPool = record {
  running = λ p. p.0;
  running-new_pool = refl;
  capacity-new_pool = omega arith;
  running-start = λ n p q e. ground arith;
  capacity-start = λ n p q e. ground arith;
  start-free = λ n p room e. ground arith;
  start-full = λ n p q e. ground arith;
  running-add_capacity = λ n p. refl;
  capacity-add_capacity = λ n p. refl;
}

abbrev args : Args
args = record {
  ip = text "127.0.0.1";
  port = pos 1883;
  topic = text "seeta_switch_open";
  file_path = text "f";
}

main_starts_example :
    (p : List Node × ℕ) × (main threads (ok args) options reader 3
      ≡ some (joining p (loop_start ∷ connect (text "127.0.0.1") (pos 1883) ∷ lib_init ∷ [])))
    × (threads-IsThreadPool.running p
        ≡ nodes_before options (row (text "2") ∷ row (text "-1") ∷ []))
unfolding parse_options at_join new_proxy node_of stoi
main_starts_example =
    main_starts threads threads-IsThreadPool args options reader 3
      (row (text "2") ∷ row (text "-1") ∷ []) refl refl (refl, (refl, refl)) (omega arith)

-- The second row asks for channel -1, which becomes 65535.
two_nodes :
    nodes_before options (row (text "2") ∷ row (text "-1") ∷ [])
    ≡ node ∷ record node { channel = 65535 } ∷ []
unfolding node_of stoi new_node
two_nodes = refl

abbrev around : Surroundings
around = record { now = 9; connect_error = false; is_address = λ ip. true }

abbrev written : WriteResult
written = record { error = false; len = 10 }

node_opens_door_example :
    IsCycle
      (text "a")
      2
      ((written, 10) ∷ (written, 11) ∷ [])
      ((written, 3000009) ∷ [])
      2
      (hear json config (delivered around (first_message json writer node)) (new_server config))
unfolding find compare_text
node_opens_door_example =
    node_opens_door json writer node config board around written written written 10 11 3000009 2
      json-IsJson refl ((tt, tt), ((refl, omega arith, omega arith), tt)) refl (omega arith)
      (omega arith) (omega arith) refl refl (omega arith) (omega arith) (omega arith) (omega arith)
      (omega arith)
