-- ===== src/Svr/Load/First.antt =====
-- A load that succeeds, against the documents of the whole collection: which of them decides.
use Prim.Native.Nat.{Ordering}
use door_switch_svr.Prelude.{
  ℕ, zero, suc, ◌+◌, List, [], ◌∷◌, ◌++◌, ◌≡◌, refl, sym, ◌∙◌, ◌≢◌, inl, inr, Bool, true, false,
  Option, none, some, Bool-cases, arith, ◌==◌, ap,
}
use door_switch_svr.OrderedMap.{Map, cmp, key_text, find}
use door_switch_svr.OrderedMap.Laws.{IsSorted, or_else, find-insert, insert-IsSorted}
use door_switch_svr.Param.{Text, SwitchInfo, SvrCfg}
use door_switch_svr.Poco.{Result, ok, thrown, Result-cases}
use door_switch_svr.Svr.Load.{
  Mongo, Response, read_document, insert_record, load_documents, load_loop, load_connected, stored,
  load_switch_setting,
}

or_else_assoc : {A : Type 0} (a b c : Option A) → or_else (or_else a b) c ≡ or_else a (or_else b c)
or_else_assoc none b c = refl
or_else_assoc (some a) b c = refl

module _ (mongo : Mongo) where
  open mongo use {Document}

  stored-some :
      (cfg cfg' : SvrCfg) (o : Option (Map Text SwitchInfo × Bool))
      → stored mongo cfg o ≡ some (cfg', true)
      → o ≡ some (cfg'.map_oid_switch_info, true)
  stored-some cfg cfg' none q = ground arith
  stored-some cfg cfg' (some (m, fine)) q = ground arith

  -- The documents of a response and of those that follow it, to the end of the cursor; the next call
  -- of `next` is number `k`.
  pub data Collection (database table : Text)
      : ℕ → Result (Response Document) → List Document → Type 0 where
    last_batch :
        (k : ℕ) (response : Response Document)
        → response.cursor_id ≡ 0
        → Collection database table k (ok response) response.documents
    batch :
        (k : ℕ) (response : Response Document) {rest : List Document}
        → response.cursor_id ≢ 0
        → Collection database table (k + 1) (mongo.next database table k) rest
        → Collection database table k (ok response) (response.documents ++ rest)

  -- A record, if it is one of this id.
  pub this_record : Text → Option SwitchInfo → Option SwitchInfo
  this_record oid none = none
  this_record oid (some info) = elim (cmp info.oid oid) [ Ordering.eq ↦ some info | _ ↦ none ]

  -- The first document that can be read and is complete, of those with this id.
  pub first_record : Text → List Document → Option SwitchInfo
  unfolding this_record
  first_record oid [] = none
  first_record oid (d ∷ ds) =
      let rest = first_record oid ds in
      elim (read_document mongo d) [ thrown e ↦ rest | ok r ↦ or_else (this_record oid r) rest ]

  find-insert_record :
      (oid : Text) (r : Option SwitchInfo) (m : Map Text SwitchInfo)
      → IsSorted m
      → find oid (insert_record mongo r m) ≡ or_else (find oid m) (this_record oid r)
  unfolding this_record
  find-insert_record oid none m s = ground arith
  find-insert_record oid (some info) m s = find-insert info.oid oid info m s

  insert_record-IsSorted :
      (r : Option SwitchInfo) (m : Map Text SwitchInfo)
      → IsSorted m
      → IsSorted (insert_record mongo r m)
  insert_record-IsSorted none m s = s
  insert_record-IsSorted (some info) m s = insert-IsSorted info.oid info m s

  load_documents-IsSorted :
      (ds : List Document) (m : Map Text SwitchInfo)
      → IsSorted m
      → IsSorted (load_documents mongo ds m).0
  unfolding load_documents
  load_documents-IsSorted [] m s = s
  load_documents-IsSorted (d ∷ ds) m s = elim (Result-cases (read_document mongo d)) [
    | inl (what, e) ↦ rw (e, load_documents) s
    | inr (r, e) ↦
        rw (e, load_documents)
          (load_documents-IsSorted ds (insert_record mongo r m) (insert_record-IsSorted r m s))
  ]

  failed :
      (d : Document) (ds : List Document) (m : Map Text SwitchInfo) (what : Text)
      → read_document mongo d ≡ thrown what
      → load_documents mongo (d ∷ ds) m ≡ (m, false)
  unfolding load_documents
  failed d ds m what e = rw (e, load_documents)

  find-load_documents :
      (oid : Text) (ds : List Document) (m : Map Text SwitchInfo)
      → IsSorted m
      → (load_documents mongo ds m).1 ≡ true
      → find oid (load_documents mongo ds m).0 ≡ or_else (find oid m) (first_record oid ds)
  unfolding load_documents first_record
  find-load_documents oid [] m s h = ground arith
  find-load_documents oid (d ∷ ds) m s h = elim (Result-cases (read_document mongo d)) [
    | inl (what, e) ↦
        cc (sym (ap (λ (p : Map Text SwitchInfo × Bool). p.1) (failed d ds m what e)) ∙ h)
    | inr (r, e) ↦
        rw (e, load_documents, first_record)
          (find-load_documents oid ds (insert_record mongo r m) (insert_record-IsSorted r m s)
              (rw (e, load_documents) at h)
            ∙ ap (λ (o : Option SwitchInfo). or_else o (first_record oid ds))
                (find-insert_record oid r m s)
            ∙ or_else_assoc (find oid m) (this_record oid r) (first_record oid ds))
  ]

  first_record-append :
      (oid : Text) (xs ys : List Document)
      → first_record oid (xs ++ ys) ≡ or_else (first_record oid xs) (first_record oid ys)
  unfolding first_record
  first_record-append oid [] ys = refl
  first_record-append oid (d ∷ xs) ys = elim (Result-cases (read_document mongo d)) [
    | inl (what, e) ↦ rw (e, first_record) (first_record-append oid xs ys)
    | inr (r, e) ↦
        rw (e, first_record)
          (ap (or_else (this_record oid r)) (first_record-append oid xs ys)
            ∙ sym (or_else_assoc (this_record oid r) (first_record oid xs) (first_record oid ys)))
  ]

  -- What a loop that succeeds found for an id.
  abbrev Found :
      Text
      → Text
      → Text
      → ℕ
      → Result (Response Document)
      → Map Text SwitchInfo
      → Map Text SwitchInfo
      → Type 0
  Found database table oid k r m m' =
      (ds : List Document) × Collection database table k r ds
      × (find oid m' ≡ or_else (find oid m) (first_record oid ds))

  load_loop-Found :
      (database table oid : Text) (fuel k : ℕ) (r : Result (Response Document))
      (m m' : Map Text SwitchInfo)
      → IsSorted m
      → load_loop mongo database table fuel k r m ≡ some (m', true)
      → Found database table oid k r m m'
  unfolding load_loop
  load_loop-Found database table oid zero k r m m' s e = cc
  load_loop-Found database table oid (suc fuel) k (thrown what) m m' s e = cc
  load_loop-Found database table oid (suc fuel) k (ok response) m m' s e =
      elim (Bool-cases (load_documents mongo response.documents m).1) [
        | inl fine ↦
            let here = find-load_documents oid response.documents m s fine in
            elim (Bool-cases (response.cursor_id == 0)) [
              | inl end ↦
                  let q : (load_documents mongo response.documents m).0 ≡ m' = ground arith in
                  (response.documents, last_batch k response (ground arith), rw (← q) here)
              | inr more ↦
                  let m₁ = (load_documents mongo response.documents m).0 in
                  let q : load_loop mongo database table fuel (k + 1) (mongo.next database table k)
                        m₁
                      ≡ some (m', true) =
                    ground arith in
                  let (ds, c, f) =
                    load_loop-Found database table oid fuel (k + 1) (mongo.next database table k) m₁
                      m' (load_documents-IsSorted response.documents m s) q in
                  (
                    response.documents ++ ds,
                    batch k response (ground arith) c,
                    f
                        ∙ ap (λ (o : Option SwitchInfo). or_else o (first_record oid ds)) here
                        ∙ or_else_assoc (find oid m) (first_record oid response.documents)
                            (first_record oid ds)
                        ∙ ap (or_else (find oid m))
                            (sym (first_record-append oid response.documents ds)),
                  )
            ]
        | inr broken ↦ absurd (ground arith)
      ]

  -- If a load into a sorted table succeeds, with any fuel, the switch found under an id is the one
  -- that was there before, and otherwise the first complete document of that id in the whole
  -- collection, in the order of the cursor's batches; under an id with neither nothing is found.
  pub load_finds_first :
      (fuel : ℕ) (cfg cfg' : SvrCfg) (oid : Text)
      → IsSorted cfg.map_oid_switch_info
      → load_switch_setting mongo fuel cfg ≡ some (cfg', true)
      → (ds : List Document) × Collection cfg.mongo_cfg.database cfg.mongo_cfg.tb_switch 1
          (mongo.next cfg.mongo_cfg.database cfg.mongo_cfg.tb_switch 0)
          ds
        × (find oid cfg'.map_oid_switch_info
            ≡ or_else (find oid cfg.map_oid_switch_info) (first_record oid ds))
  unfolding load_switch_setting
  load_finds_first fuel cfg cfg' oid s e =
      by_connection (mongo.connection cfg.mongo_cfg.ip cfg.mongo_cfg.port) e
    where
      database : Text
      database = cfg.mongo_cfg.database

      table : Text
      table = cfg.mongo_cfg.tb_switch

      by_connection :
          (c : Result (Unit {0}))
          → stored mongo cfg (load_connected mongo c fuel cfg) ≡ some (cfg', true)
          → Found database table oid 1
              (mongo.next database table 0)
              cfg.map_oid_switch_info
              cfg'.map_oid_switch_info
      by_connection (thrown what) q = unfold load_connected in cc
      by_connection (ok u) q =
          unfold load_connected in
          load_loop-Found database table oid fuel 1 (mongo.next database table 0)
            cfg.map_oid_switch_info cfg'.map_oid_switch_info s (stored-some cfg cfg' _ q)
