-- ===== src/Svr/Load/Loaded.antt =====
-- The table of switches that a load leaves, and when a load ends.
use door_switch_svr.Prelude.{
  ℕ, zero, suc, ◌+◌, ◌<◌, List, [], ◌∷◌, ◌≡◌, refl, subst, ◌≢◌, inl, inr, Bool, false, Option, none,
  some, arith, All,
}
use door_switch_svr.OrderedMap.{Map, key_text, insert}
use door_switch_svr.OrderedMap.Laws.{IsSorted, insert-IsSorted}
use door_switch_svr.Param.{Text, SwitchInfo, SvrCfg}
use door_switch_svr.Poco.{Result, ok, thrown, Result-cases}
use door_switch_svr.Svr.Load.{
  Mongo, Response, read_fields, if_complete, read_document, insert_record, load_documents,
  load_loop, load_connected, stored, load_switch_setting,
}

-- An entry of the table: its key is its own id, and its numbers are those of an `unsigned short`.
abbrev pub IsEntry : Text × SwitchInfo → Type 0
IsEntry (k, info) = (info.oid ≡ k) × (info.channels < 65536) × (info.port < 65536)

abbrev pub IsTable : Map Text SwitchInfo → Type 0
IsTable m = IsSorted m × All IsEntry m

insert-IsEntry :
    (info : SwitchInfo) (m : Map Text SwitchInfo)
    → IsEntry (info.oid, info)
    → All IsEntry m
    → All IsEntry (insert info.oid info m)
unfolding insert
insert-IsEntry info [] i h = (i, tt)
insert-IsEntry info ((k, v) ∷ m) i h = ground (arith, insert-IsEntry info m i h.1)

module _ (mongo : Mongo) where
  open mongo use {Document}

  -- What a document that could be read gives.
  abbrev IsRecord : Option SwitchInfo → Type 0
  IsRecord none = Unit {0}
  IsRecord (some info) = IsEntry (info.oid, info)

  read_document-IsRecord :
      (d : Document) (r : Option SwitchInfo) → read_document mongo d ≡ ok r → IsRecord r
  unfolding read_document if_complete read_fields
  read_document-IsRecord d none e = tt
  read_document-IsRecord d (some info) e = ground arith

  insert_record-IsTable :
      (r : Option SwitchInfo) (m : Map Text SwitchInfo)
      → IsRecord r
      → IsTable m
      → IsTable (insert_record mongo r m)
  insert_record-IsTable none m i t = t
  insert_record-IsTable (some info) m i t =
      (insert-IsSorted info.oid info m t.0, insert-IsEntry info m i t.1)

  load_documents-IsTable :
      (ds : List Document) (m : Map Text SwitchInfo)
      → IsTable m
      → IsTable (load_documents mongo ds m).0
  unfolding load_documents
  load_documents-IsTable [] m t = t
  load_documents-IsTable (d ∷ ds) m t = elim (Result-cases (read_document mongo d)) [
    | inl (what, e) ↦ rw (e, load_documents) t
    | inr (r, e) ↦
        rw (e, load_documents)
          (load_documents-IsTable ds (insert_record mongo r m)
            (insert_record-IsTable r m (read_document-IsRecord d r e) t))
  ]

  load_loop-IsTable :
      (database table : Text) (fuel k : ℕ) (r : Result (Response Document))
      (m : Map Text SwitchInfo) (m' : Map Text SwitchInfo) (fine : Bool)
      → load_loop mongo database table fuel k r m ≡ some (m', fine)
      → IsTable m
      → IsTable m'
  unfolding load_loop
  load_loop-IsTable database table zero k r m m' fine e t = cc
  load_loop-IsTable database table (suc fuel) k (thrown what) m m' fine e t = subst IsTable (cc) t
  load_loop-IsTable database table (suc fuel) k (ok response) m m' fine e t = ground (
    arith,
    load_documents-IsTable response.documents m t,
    load_loop-IsTable database table fuel (k + 1) (mongo.next database table k)
        (load_documents mongo response.documents m).0 m' fine,
  )

  -- The cursor ends with this call: it throws, or its response has no next one.
  abbrev pub IsLast : Result (Response Document) → Type 0
  IsLast (thrown e) = Unit {0}
  IsLast (ok response) = response.cursor_id ≡ 0

  -- The cursor ends `n` calls after the one that gave `r`, where the next call is number `k`.
  abbrev EndsAfter : Text → Text → ℕ → ℕ → Result (Response Document) → Type 0
  EndsAfter database table zero k r = IsLast r
  EndsAfter database table (suc n) k r = IsLast (mongo.next database table (k + n))

  EndsAfter-next :
      (database table : Text) (n k : ℕ) (r : Result (Response Document))
      → EndsAfter database table (suc n) k r
      → EndsAfter database table n (k + 1) (mongo.next database table k)
  EndsAfter-next database table zero k r l =
      subst (λ i. IsLast (mongo.next database table i)) (omega arith) l
  EndsAfter-next database table (suc n) k r l =
      subst (λ i. IsLast (mongo.next database table i)) (omega arith) l

  EndsAfter-first :
      (database table : Text) (n : ℕ)
      → IsLast (mongo.next database table n)
      → EndsAfter database table n 1 (mongo.next database table 0)
  EndsAfter-first database table zero l = l
  EndsAfter-first database table (suc n) l =
      subst (λ i. IsLast (mongo.next database table i)) (omega arith) l

  load_loop-ends :
      (database table : Text) (fuel n k : ℕ) (r : Result (Response Document))
      (m : Map Text SwitchInfo)
      → EndsAfter database table n k r
      → n < fuel
      → load_loop mongo database table fuel k r m ≢ none
  unfolding load_loop
  load_loop-ends database table zero n k r m l f = elim f [ ]
  load_loop-ends database table (suc fuel) n k (thrown e) m l f = λ q. cc
  load_loop-ends database table (suc fuel) zero k (ok response) m l f = ground arith
  load_loop-ends database table (suc fuel) (suc n) k (ok response) m l f = ground (
    arith,
    load_loop-ends database table fuel n (k + 1) (mongo.next database table k)
        (load_documents mongo response.documents m).0
        (EndsAfter-next database table n k (ok response) l) (omega arith),
  )

  -- If call number `n` of the cursor throws or has no next one, then with fuel above `n` the load ends,
  -- by success or by failure, and the table of switches, well-formed before, is well-formed after:
  -- sorted, each switch under its own id, its channels and its port within 16 bits.
  pub load-IsTable :
      (fuel n : ℕ) (cfg : SvrCfg)
      → IsLast (mongo.next cfg.mongo_cfg.database cfg.mongo_cfg.tb_switch n)
      → n < fuel
      → IsTable cfg.map_oid_switch_info
      → (cfg' : SvrCfg) × (fine : Bool) × (load_switch_setting mongo fuel cfg ≡ some (cfg', fine))
        × IsTable cfg'.map_oid_switch_info
  unfolding load_switch_setting
  load-IsTable fuel n cfg l f t =
      by_connection (mongo.connection cfg.mongo_cfg.ip cfg.mongo_cfg.port)
    where
      database : Text
      database = cfg.mongo_cfg.database

      table : Text
      table = cfg.mongo_cfg.tb_switch

      by_loop :
          (o : Option (Map Text SwitchInfo × Bool))
          → load_loop mongo database table fuel 1
              (mongo.next database table 0)
              cfg.map_oid_switch_info
            ≡ o
          → (cfg' : SvrCfg) × (fine : Bool) × (stored mongo cfg o ≡ some (cfg', fine))
            × IsTable cfg'.map_oid_switch_info
      by_loop none e = absurd (
          load_loop-ends database table fuel n 1 (mongo.next database table 0)
            cfg.map_oid_switch_info (EndsAfter-first database table n l) f e)
      by_loop (some (m, fine)) e = (
        record cfg { map_oid_switch_info = m },
        fine,
        refl,
        load_loop-IsTable database table fuel 1 (mongo.next database table 0)
            cfg.map_oid_switch_info m fine e t,
      )

      by_connection :
          (c : Result (Unit {0}))
          → (cfg' : SvrCfg) × (fine : Bool) × (stored mongo cfg (load_connected mongo c fuel cfg)
              ≡ some (cfg', fine))
            × IsTable cfg'.map_oid_switch_info
      by_connection (thrown e) = unfold load_connected in (cfg, false, refl, t)
      by_connection (ok u) = unfold load_connected in by_loop _ refl
