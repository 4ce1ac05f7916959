-- ===== src/Svr/Load.antt =====
-- src/DoorSwitchSvr.cpp, loadSwitchSetting: the switches of the database. The MongoDB client and its
-- documents are a parameter.
pub mod Loaded
pub mod First
use door_switch_svr.Prelude.{
  ℕ, zero, suc, ◌+◌, List, [], ◌∷◌, Bool, true, false, ◌&&◌, Option, none, some, ◌==◌,
  if◌then◌else◌,
}
use door_switch_svr.Prelude.Int.{ℤ, pos, negsuc, u16}
use door_switch_svr.OrderedMap.{Map, key_text, insert}
use door_switch_svr.Param.{
  Text, text, SwitchInfo, SvrCfg, SwitchType, direct_control_switch, indirect_control_switch,
  unnamed_switch,
}
use door_switch_svr.Poco.{Result, ok, thrown, ◌>>=◌}

pub record Response {ℓ} (D : Type ℓ) : Type ℓ where
  pub documents : List D
  pub cursor_id : ℕ

-- `Connection(ip, port)`, `(*it)->get<ObjectId::Ptr>("_id")->toString()`, `exists`, `get<std::string>`,
-- `get<int>`, and the `cursor.next` of a connection to a collection, by the number of calls before it.
pub record Mongo : Type 1 where
  pub Document : Type 0
  pub connection : Text → ℤ → Result (Unit {0})
  pub get_oid : Document → Result Text
  pub exists : Document → Text → Bool
  pub get_string : Document → Text → Result Text
  pub get_int : Document → Text → Result ℤ
  pub next : Text → Text → ℕ → Result (Response Document)

-- `(SWITCH_TYPE) n`.
unfoldable pub switch_type : ℤ → SwitchType
switch_type (pos zero) = direct_control_switch
switch_type (pos (suc zero)) = indirect_control_switch
switch_type (pos (suc (suc n))) = unnamed_switch (pos (suc (suc n)))
switch_type (negsuc n) = unnamed_switch (negsuc n)

module _ (mongo : Mongo) where
  open mongo use {Document, connection, get_oid, exists, get_string, get_int, next}

  abbrev pub is_complete : Document → Bool
  is_complete d =
      exists d (text "ip")
      && exists d (text "port")
      && exists d (text "channels")
      && exists d (text "type")

  read_fields : Text → Document → Result SwitchInfo
  unfolding switch_type
  read_fields oid d = do
    ip ← get_string d (text "ip")
    port ← get_int d (text "port")
    channels ← get_int d (text "channels")
    type ← get_int d (text "type")
    ok (record {
      oid = oid;
      ip = ip;
      channels = u16 channels;
      port = u16 port;
      type = switch_type type;
    })

  -- `none` is the `continue` of a document that lacks a field.
  if_complete : Bool → Text → Document → Result (Option SwitchInfo)
  unfolding read_fields
  if_complete false oid d = ok none
  if_complete true oid d = do info ← read_fields oid d; ok (some info)

  unfoldable pub read_document : Document → Result (Option SwitchInfo)
  unfolding if_complete
  read_document d = do oid ← get_oid d; if_complete (is_complete d) oid d

  -- `mapOidSwitchInfo.insert(…)`, or the `continue`.
  abbrev pub insert_record : Option SwitchInfo → Map Text SwitchInfo → Map Text SwitchInfo
  insert_record none m = m
  insert_record (some info) m = insert info.oid info m

  -- The inner loop; `false` if a document threw, with what was inserted before.
  unfoldable pub load_documents : List Document → Map Text SwitchInfo → Map Text SwitchInfo × Bool
  unfolding read_document
  load_documents [] m = (m, true)
  load_documents (d ∷ ds) m = elim (read_document d) [
    | thrown e ↦ (m, false)
    | ok r ↦ load_documents ds (insert_record r m)
  ]

  -- The outer loop on the result of call `k - 1` of `next`; `none` if the fuel ran out.
  unfoldable pub load_loop :
      Text
      → Text
      → ℕ
      → ℕ
      → Result (Response Document)
      → Map Text SwitchInfo
      → Option (Map Text SwitchInfo × Bool)
  unfolding load_documents
  load_loop database table zero k response m = none
  load_loop database table (suc fuel) k (thrown e) m = some (m, false)
  load_loop database table (suc fuel) k (ok response) m =
      let (m', fine) = load_documents response.documents m in
      let rest = load_loop database table fuel (k + 1) (next database table k) m' in
      if fine then (if response.cursor_id == 0 then some (m', true) else rest) else some (m', false)

  load_connected : Result (Unit {0}) → ℕ → SvrCfg → Option (Map Text SwitchInfo × Bool)
  unfolding load_loop
  load_connected (thrown e) fuel cfg = some (cfg.map_oid_switch_info, false)
  load_connected (ok u) fuel cfg =
      let database = cfg.mongo_cfg.database in
      let table = cfg.mongo_cfg.tb_switch in
      load_loop database table fuel 1 (next database table 0) cfg.map_oid_switch_info

  abbrev stored : SvrCfg → Option (Map Text SwitchInfo × Bool) → Option (SvrCfg × Bool)
  stored cfg none = none
  stored cfg (some (m, fine)) = some (record cfg { map_oid_switch_info = m }, fine)

  -- `loadSwitchSetting(m_config.m_mapOidSwitchInfo)`.
  unfoldable pub load_switch_setting : ℕ → SvrCfg → Option (SvrCfg × Bool)
  unfolding load_connected
  load_switch_setting fuel cfg =
      stored cfg (load_connected (connection cfg.mongo_cfg.ip cfg.mongo_cfg.port) fuel cfg)
