-- ===== src/Svr/Tests.antt =====
-- The theorems on the server at concrete values: a configuration without a file, a database with two
-- batches, and a parser that gives one request.
use door_switch_svr.Prelude.{
  none, arith, ◌⊎◌, ℕ, zero, suc, List, [], ◌∷◌, ◌≡◌, refl, true, false, some,
}
use door_switch_svr.Prelude.Int.{pos}
use door_switch_svr.OrderedMap.{key_text, find, insert, compare_text}
use door_switch_svr.OrderedMap.Laws.{or_else}
use door_switch_svr.Param.{Text, text, SwitchInfo, SvrCfg, unnamed_switch, default_svr_cfg}
use door_switch_svr.Poco.{Json, ok}
use door_switch_svr.Svr.{connected, delivered}
use door_switch_svr.Svr.Main.{Happening, hears, acts, Ended, main, serve_all}
use door_switch_svr.Svr.Load.Loaded.{IsTable}
use door_switch_svr.Svr.Served.{IsEnd, main_leaves}
use door_switch_svr.Serving.{new_server}
use door_switch_svr.Controller.{WriteResult}
use door_switch_svr.Handler.Event.{thread_turns}
use door_switch_svr.Svr.Config.{Configuration, exit_ok, parse_configuration}
use door_switch_svr.Svr.Config.Parse.{Answers, parse_configuration-Answers}
use door_switch_svr.Svr.Load.{Mongo, Response, load_switch_setting}
use door_switch_svr.Svr.Load.First.{Collection, first_record, load_finds_first}

abbrev no_file : Configuration
no_file = record { get_string = λ key default. ok default; get_int = λ key default. ok default }

abbrev config : SvrCfg
config = default_svr_cfg

parse_configuration-Answers_example : Answers no_file config (parse_configuration no_file config).0
unfolding parse_configuration
parse_configuration-Answers_example = parse_configuration-Answers no_file config refl

-- A document is the id and the address of a switch.
abbrev batch_of : ℕ → Response (Text × Text)
batch_of zero = record {
  documents = (text "a", text "10.0.0.7") ∷ (text "b", text "10.0.0.8") ∷ [];
  cursor_id = 7;
}
batch_of (suc n) = record { documents = (text "a", text "10.0.0.9") ∷ []; cursor_id = 0 }

abbrev two_batches : Mongo
two_batches = record {
  Document = Text × Text;
  connection = λ ip port. ok tt;
  get_oid = λ d. ok d.0;
  exists = λ d key. true;
  get_string = λ d key. ok d.1;
  get_int = λ d key. ok (pos 8);
  next = λ database table k. ok (batch_of k);
}

abbrev switch : Text → Text → SwitchInfo
switch oid ip = record { oid = oid; ip = ip; channels = 8; port = 8; type = unnamed_switch (pos 8) }

abbrev loaded : SvrCfg
loaded = record config {
  map_oid_switch_info =
      (text "a", switch (text "a") (text "10.0.0.7"))
      ∷ (text "b", switch (text "b") (text "10.0.0.8"))
      ∷ [];
}

load_finds_first_example :
    (ds : List (Text × Text)) × Collection two_batches
      (text "system_db")
      (text "t_switch")
      1
      (ok (batch_of 0))
      ds
    × (find (text "a") loaded.map_oid_switch_info
        ≡ or_else (find (text "a") []) (first_record two_batches (text "a") ds))
unfolding load_switch_setting insert compare_text
load_finds_first_example = load_finds_first two_batches 3 config loaded (text "a") tt refl

abbrev parser : Json
parser = record {
  Value = Unit {0};
  Object = Unit {0};
  parse = λ message. ok tt;
  extract = λ value. ok tt;
  get_string = λ object key. ok (text "b");
  get_int = λ object key. ok (pos 3);
}

abbrev written : WriteResult
written = record { error = false; len = 10 }

-- A message for door 3 of switch b, and turns of the thread of this door.
abbrev happenings : List Happening
happenings =
    hears (connected (pos 0))
    ∷ hears (
        delivered (record { now = 9; connect_error = false; is_address = λ ip. true })
          (record { topic = text "seeta_switch_open"; payload = some (text "x") }))
    ∷ acts (text "b") (thread_turns 3 written 10) refl
    ∷ acts (text "b") (thread_turns 3 written 11) refl
    ∷ []

main_leaves_example :
    ((r : Ended) × (main no_file two_batches parser happenings 3 default_svr_cfg ≡ some r)
      × (r.code ≡ exit_ok)
      × IsTable r.config.map_oid_switch_info
      × IsEnd happenings r.config r.served)
    ⊎ ((cfg : SvrCfg) × (load_switch_setting two_batches 3 config ≡ some (cfg, true))
        × (serve_all parser cfg happenings (new_server cfg) ≡ none))
unfolding parse_configuration
main_leaves_example = main_leaves no_file two_batches parser happenings 3 1 refl (omega arith)
