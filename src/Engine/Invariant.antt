-- ===== src/Engine/Invariant.antt =====
-- What the handlers of the engine have in common, whatever messages came.
use door_switch_svr.Prelude.{◌≡◌, refl, sym, subst, Option, none, some, arith, All}
use door_switch_svr.OrderedMap.{key_text, find, last}
use door_switch_svr.OrderedMap.Laws.{
  IsSorted, insert-IsSorted, adjust-IsSorted, adjust_last-adjust, find-last,
}
use door_switch_svr.OrderedMap.Every.{All-find, All-insert, All-adjust}
use door_switch_svr.Param.{Text, SwitchInfo, SvrCfg}
use door_switch_svr.Poco.{Json, Result, ok, thrown}
use door_switch_svr.Prelude.Int.{i16}
use door_switch_svr.Handler.{Handler, new_handler, connect}
use door_switch_svr.Handler.Kept.{IsFor, new_handler-IsFor, connect-IsFor, open_door-IsFor}
use door_switch_svr.Svr.Load.Loaded.{IsTable, IsEntry}
use door_switch_svr.Engine.{
  OpenDoorRequest, Engine, Surroundings, create_switch_handler, open_on, connect_open, use_last,
  with_handler, with_info, with_request, read_request, on_recv_mqtt_message,
}

-- An entry of the handlers: the configuration has its id, and the handler is for that switch.
abbrev pub IsServed : SvrCfg → Text × Handler → Type 0
IsServed cfg (k, h) =
    (info : SwitchInfo) × (find k cfg.map_oid_switch_info ≡ some info) × IsFor info h

pub record IsWell (cfg : SvrCfg) (e : Engine) : Type 0 where
  pub sorted : IsSorted e.handlers
  pub served : All (IsServed cfg) e.handlers

module _ (cfg : SvrCfg) (env : Surroundings) (req : OpenDoorRequest) where
  open_on-IsFor :
      (info : SwitchInfo) (h : Handler) → IsFor info h → IsFor info (open_on req env h).0
  unfolding open_on
  open_on-IsFor info h i = open_door-IsFor (i16 req.channel) req.close_after env.now info h i

  connect_open-IsFor :
      (info : SwitchInfo) (h : Handler) → IsFor info h → IsFor info (connect_open req env h).0
  unfolding connect_open
  connect_open-IsFor info h i =
      let c = connect-IsFor env.connect_error info h i in
      ground (arith, c, open_on-IsFor info (connect env.connect_error h).0 c)

  use_last-IsWell :
      (o : Option (Text × Handler)) (e : Engine)
      → last e.handlers ≡ o
      → IsWell cfg e
      → IsWell cfg (use_last req env o e).0
  unfolding use_last
  use_last-IsWell none e l w = w
  use_last-IsWell (some (k, h)) e l w =
      let h' = (connect_open req env h).0 in
      let (info, found, i) =
        All-find (IsServed cfg) k h e.handlers (find-last k h e.handlers w.sorted l) w.served in
      let same = sym (adjust_last-adjust k h (λ _. h') e.handlers w.sorted l) in
      record {
        sorted = subst IsSorted same (adjust-IsSorted k (λ _. h') e.handlers w.sorted);
        served = subst (All (IsServed cfg)) same (
            All-adjust (IsServed cfg) k h' e.handlers (info, found, connect_open-IsFor info h i)
              w.served);
      }

  create-IsWell :
      (info : SwitchInfo) (e : Engine)
      → find info.oid cfg.map_oid_switch_info ≡ some info
      → IsWell cfg e
      → IsWell cfg (create_switch_handler info e)
  unfolding create_switch_handler
  create-IsWell info e found w = record {
    sorted = insert-IsSorted info.oid (new_handler info) e.handlers w.sorted;
    served =
        All-insert (IsServed cfg) info.oid (new_handler info) e.handlers
          (info, found, new_handler-IsFor info) w.served;
  }

  with_handler-IsWell :
      (info : SwitchInfo) (o : Option Handler) (e : Engine)
      → find info.oid cfg.map_oid_switch_info ≡ some info
      → find req.switch_id e.handlers ≡ o
      → IsWell cfg e
      → IsWell cfg (with_handler req env info o e).0
  unfolding with_handler
  with_handler-IsWell info none e found at w = ground (
    arith,
    use_last-IsWell (last (create_switch_handler info e).handlers) (create_switch_handler info e)
        refl (create-IsWell info e found w),
  )
  with_handler-IsWell info (some h) e found at w =
      let h' = (open_on req env h).0 in
      let (info', found', i) = All-find (IsServed cfg) req.switch_id h e.handlers at w.served in
      record {
        sorted = adjust-IsSorted req.switch_id (λ _. h') e.handlers w.sorted;
        served =
            All-adjust (IsServed cfg) req.switch_id h' e.handlers
              (info', found', open_on-IsFor info' h i) w.served;
      }

  with_info-IsWell :
      (o : Option SwitchInfo) (e : Engine)
      → IsTable cfg.map_oid_switch_info
      → find req.switch_id cfg.map_oid_switch_info ≡ o
      → IsWell cfg e
      → IsWell cfg (with_info req env o e).0
  unfolding with_info
  with_info-IsWell none e t found w = w
  with_info-IsWell (some info) e t found w =
      let (own_id, _, _) = All-find IsEntry req.switch_id info cfg.map_oid_switch_info found t.1 in
      let found' : find info.oid cfg.map_oid_switch_info ≡ some info =
        subst (λ k. find k cfg.map_oid_switch_info ≡ some info) (sym own_id) found in
      ground (arith, with_handler-IsWell info (find req.switch_id e.handlers) e found' refl w)

-- If the table of switches is well-formed, a message keeps the handlers well-formed: sorted, each under
-- the id of a switch of the configuration, made for that switch, with its doors sorted.
pub recv-IsWell :
    (json : Json) (cfg : SvrCfg) (env : Surroundings) (message : Text) (e : Engine)
    → IsTable cfg.map_oid_switch_info
    → IsWell cfg e
    → IsWell cfg (on_recv_mqtt_message json cfg env message e).0
unfolding on_recv_mqtt_message with_request
recv-IsWell json cfg env message e t w = by_request (read_request json message)
  where
    by_request : (r : Result OpenDoorRequest) → IsWell cfg (with_request cfg env r e).0
    by_request (thrown what) = w
    by_request (ok req) =
        with_info-IsWell cfg env req (find req.switch_id cfg.map_oid_switch_info) e t refl w
