-- ===== src/Svr/Served.antt =====
-- A run of the server from its start to its end.
use door_switch_svr.Prelude.{
  ◌∙◌, ◌⊎◌, arith, ℕ, zero, suc, ◌<◌, List, [], ◌∷◌, ◌≡◌, refl, sym, subst, Bool, true, false,
  Option, none, some, All, ap, map, Bool-cases, Option-cases, inl, inr,
}
use door_switch_svr.Prelude.Int.{pos, negsuc}
use door_switch_svr.OrderedMap.{Map, key_text, find}
use door_switch_svr.Param.{Text, SwitchInfo, SvrCfg, default_svr_cfg}
use door_switch_svr.Poco.{Json}
use door_switch_svr.Controller.{Controller}
use door_switch_svr.Controller
use door_switch_svr.Handler.{Handler}
use door_switch_svr.Handler
use door_switch_svr.Handler.Event.{none-ne-some}
use door_switch_svr.Handler.Timer.{timer_runs}
use door_switch_svr.Engine.{Engine, new_engine}
use door_switch_svr.Engine
use door_switch_svr.Engine.Invariant.{IsServed}
use door_switch_svr.Mqtt.{
  MosqCall, lib_init, connect, loop_start, subscribe, disconnect, loop_stop, lib_cleanup, Proxy,
  new_proxy, on_connect, on_message,
}
use door_switch_svr.Mqtt
use door_switch_svr.Svr.{BrokerEvent, connected, delivered, receive}
use door_switch_svr.Svr.Main.{
  Happening, hears, acts, Ended, serve_one, ends_process, serve_all, end_of, serve, after_load,
  main,
}
use door_switch_svr.Svr.Config.{
  Configuration, ExitCode, exit_ok, exit_config, is_exit_ok, parse_configuration,
}
use door_switch_svr.Svr.Config.Parse.{parse_configuration-code}
use door_switch_svr.Svr.Load.{Mongo, load_switch_setting}
use door_switch_svr.Serving.{Server, new_server, hear, Step, Reach, begins, later}
use door_switch_svr.Serving.Invariant.{Reach-IsSafe}
use door_switch_svr.Serving.Turns.{some-inj, act_on-proxy, Reach-act_on}
use door_switch_svr.Svr.Load.Loaded.{IsTable, IsLast, load-IsTable}

-- How often the broker accepted a connect.
abbrev pub accepted : List Happening → ℕ
accepted [] = 0
accepted (hears (connected (pos zero)) ∷ xs) = suc (accepted xs)
accepted (_ ∷ xs) = accepted xs

-- `n` calls alike, on those made before.
abbrev pub repeat : ℕ → MosqCall → List MosqCall → List MosqCall
repeat zero c calls = calls
repeat (suc n) c calls = repeat n c (c ∷ calls)

-- A handler that is closed: its timer does not run, and every door has been told to stop.
abbrev pub IsShut : Handler → Type 0
IsShut h =
    (timer_runs h.calls ≡ false)
    × All (λ (d : ℕ × Controller). d.1.worker.stop ≡ true) h.controllers

-- The handler is for a switch of this configuration.
abbrev pub IsListed : SvrCfg → Handler → Type 0
IsListed cfg h =
    (k : Text) × (info : SwitchInfo) × (find k cfg.map_oid_switch_info ≡ some info)
    × (h.switch_info ≡ info)

-- What a server that served leaves behind, if one did.
abbrev pub IsEnd : List Happening → SvrCfg → Option (Proxy × List Handler) → Type 0
IsEnd xs cfg none = Unit {0}
IsEnd xs cfg (some (p, hs)) =
    (p.calls
      ≡ lib_cleanup
        ∷ loop_stop
        ∷ disconnect
        ∷ repeat (accepted xs) (subscribe cfg.mqtt_cfg.topic)
            (loop_start ∷ connect cfg.mqtt_cfg.ip cfg.mqtt_cfg.port ∷ lib_init ∷ []))
    × All (λ h. IsShut h × IsListed cfg h) hs

doors-stop :
    (m : Map ℕ Controller)
    → All
        (λ (d : ℕ × Controller). d.1.worker.stop ≡ true)
        (map (λ d. (d.0, Controller.close d.1)) m)
unfolding Controller.close
doors-stop [] = tt
doors-stop (d ∷ m) = (refl, doors-stop m)

close-IsShut : (h : Handler) → IsShut (Handler.close h)
unfolding Handler.close
close-IsShut h = (refl, doors-stop h.controllers)

close-switch : (h : Handler) → (Handler.close h).switch_info ≡ h.switch_info
unfolding Handler.close
close-switch h = ground arith

close-IsListed :
    (cfg : SvrCfg) (k : Text) (h : Handler) → IsServed cfg (k, h) → IsListed cfg (Handler.close h)
close-IsListed cfg k h (info, found, i) = (k, info, found, close-switch h ∙ i.switch)

destroy-IsEnd :
    (cfg : SvrCfg) (m : Map Text Handler)
    → All (IsServed cfg) m
    → All (λ h. IsShut h × IsListed cfg h) (map (λ entry. Handler.close entry.1) m)
destroy-IsEnd cfg [] a = tt
destroy-IsEnd cfg ((k, h) ∷ m) a =
    ((close-IsShut h, close-IsListed cfg k h a.0), destroy-IsEnd cfg m a.1)

module _ (json : Json) (cfg : SvrCfg) where
  hear-accepted :
      (event : BrokerEvent) (xs : List Happening) (s : Server)
      → let p = (hear json cfg event s).proxy in
        repeat (accepted xs) (subscribe p.mqtt_cfg.topic) p.calls
        ≡ repeat (accepted (hears event ∷ xs)) (subscribe s.proxy.mqtt_cfg.topic) s.proxy.calls
  unfolding hear receive on_connect
  hear-accepted (connected (pos zero)) xs s = refl
  hear-accepted (connected (pos (suc n))) xs s = refl
  hear-accepted (connected (negsuc n)) xs s = refl
  hear-accepted (delivered env message) xs s = refl

  serve_one-hears :
      (event : BrokerEvent) (s s1 : Server)
      → serve_one json cfg (hears event) s ≡ some s1
      → hear json cfg event s ≡ s1
  unfolding serve_one
  serve_one-hears event s s1 one = elim (Bool-cases (ends_process json cfg event s)) [
    | inl over ↦ ground (arith, over)
    | inr on ↦ ground (arith, on)
  ]

  -- One thing that happens is a step of the server, and the proxy's calls are those of its connects.
  serve_one-Reach :
      (x : Happening) (xs : List Happening) (s s1 : Server)
      → serve_one json cfg x s ≡ some s1
      → Reach json cfg s
      → Reach json cfg s1
        × (repeat (accepted xs) (subscribe s1.proxy.mqtt_cfg.topic) s1.proxy.calls
            ≡ repeat (accepted (x ∷ xs)) (subscribe s.proxy.mqtt_cfg.topic) s.proxy.calls)
  unfolding serve_one
  serve_one-Reach (hears event) xs s s1 one r =
      let same = serve_one-hears event s s1 one in
      (
        subst (Reach json cfg) same (later r (Step.hears event)),
        sym (
              ap
                (λ (t : Server).
                  repeat (accepted xs) (subscribe t.proxy.mqtt_cfg.topic) t.proxy.calls)
                same)
            ∙ hear-accepted event xs s,
      )
  serve_one-Reach (acts k event own) xs s s1 one r = (
    Reach-act_on json cfg k event s s1 own r one,
    ap (λ (p : Proxy). repeat (accepted xs) (subscribe p.mqtt_cfg.topic) p.calls)
        (act_on-proxy k event s s1 one),
  )

  -- The server and the calls of its proxy after all that happens.
  serve_all-Reach :
      (xs : List Happening) (s s' : Server)
      → serve_all json cfg xs s ≡ some s'
      → Reach json cfg s
      → Reach json cfg s'
        × (s'.proxy.calls ≡ repeat (accepted xs) (subscribe s.proxy.mqtt_cfg.topic) s.proxy.calls)
  unfolding serve_all
  serve_all-Reach [] s s' ran r =
      let same = some-inj {a = s} {b = s'} ran in
      (subst (Reach json cfg) same r, ap (λ (t : Server). t.proxy.calls) (sym same))
  serve_all-Reach (x ∷ xs) s s' ran r = elim (Option-cases (serve_one json cfg x s)) [
    | inl stuck ↦ absurd (none-ne-some (sym (rw (serve_all, stuck)) ∙ ran))
    | inr (s1, one) ↦
        let (r1, calls1) = serve_one-Reach x xs s s1 one r in
        let (r', calls) = serve_all-Reach xs s1 s' (sym (rw (serve_all, one)) ∙ ran) r1 in
        (r', calls ∙ calls1)
  ]

  serve-IsEnd :
      (xs : List Happening) (e : Ended)
      → IsTable cfg.map_oid_switch_info
      → serve json xs cfg ≡ some e
      → (e.code ≡ exit_ok) × (e.config ≡ cfg) × IsEnd xs cfg e.served
  unfolding serve end_of new_server new_proxy new_engine Mqtt.destroy Engine.destroy
  serve-IsEnd xs e t ran = elim (Option-cases (serve_all json cfg xs (new_server cfg))) [
    | inl stuck ↦ absurd (none-ne-some (sym (ap (end_of cfg) stuck) ∙ ran))
    | inr (s, all) ↦
        let (r, calls) = serve_all-Reach xs (new_server cfg) s all begins in
        let safe = Reach-IsSafe json cfg s t r in
        subst (λ (e : Ended). (e.code ≡ exit_ok) × (e.config ≡ cfg) × IsEnd xs cfg e.served)
          (some-inj (sym (ap (end_of cfg) all) ∙ ran))
          (
            refl,
            refl,
            (
              ap (λ c. lib_cleanup ∷ loop_stop ∷ disconnect ∷ c) calls,
              destroy-IsEnd cfg s.engine.handlers safe.well.served,
            ),
          )
  ]

  after_load-IsEnd :
      (xs : List Happening) (res : ExitCode) (loaded : Bool) (e : Ended)
      → IsTable cfg.map_oid_switch_info
      → is_exit_ok res ≡ true
      → after_load json xs res (cfg, loaded) ≡ some e
      → (e.code ≡ res) × IsTable e.config.map_oid_switch_info × IsEnd xs e.config e.served
  unfolding after_load
  after_load-IsEnd xs exit_ok true e t q ran =
      let (code, config, end) = serve-IsEnd xs e t ran in
      (
        code,
        subst (λ (c : SvrCfg). IsTable c.map_oid_switch_info) (sym config) t,
        subst (λ c. IsEnd xs c e.served) (sym config) end,
      )
  after_load-IsEnd xs exit_ok false e t q ran =
      subst
        (λ (e : Ended).
          (e.code ≡ exit_ok) × IsTable e.config.map_oid_switch_info × IsEnd xs e.config e.served)
        (some-inj ran) (refl, t, tt)
  after_load-IsEnd xs exit_config loaded e t q ran = cc

  -- Only what happens while the server serves can keep it from its end.
  after_load-none :
      (xs : List Happening) (res : ExitCode) (loaded : Bool)
      → after_load json xs res (cfg, loaded) ≡ none
      → (loaded ≡ true) × (serve_all json cfg xs (new_server cfg) ≡ none)
  unfolding after_load serve end_of
  after_load-none xs res true stuck = elim (Option-cases (serve_all json cfg xs (new_server cfg))) [
    | inl stopped ↦ (refl, stopped)
    | inr (s, all) ↦ absurd (none-ne-some (sym stuck ∙ ap (end_of cfg) all))
  ]
  after_load-none xs res false stuck = absurd (none-ne-some (sym stuck))

-- If call number `n` of the database's cursor throws or has no next one, then with fuel above `n`,
-- and whatever comes from the broker and happens in the handlers meanwhile, in any order, `main`
-- comes to its end, up to the joins of the doors' threads, unless it served and something that
-- happened meanwhile ended the process by an exception or was undefined. Then its exit code is that
-- of its configuration, and its table of switches is well-formed; and if it served, it subscribed to
-- its topic once for each connect that the broker accepted, and then left the broker, and every
-- handler, each for a switch of the table, has its timer stopped and all its doors told to stop.
pub main_leaves :
    (configuration : Configuration) (mongo : Mongo) (json : Json) (xs : List Happening) (fuel n : ℕ)
    → let (cfg, res) = parse_configuration configuration default_svr_cfg in
      IsLast mongo (mongo.next cfg.mongo_cfg.database cfg.mongo_cfg.tb_switch n)
      → n < fuel
      → ((r : Ended) × (main configuration mongo json xs fuel default_svr_cfg ≡ some r)
          × (r.code ≡ res)
          × IsTable r.config.map_oid_switch_info
          × IsEnd xs r.config r.served)
        ⊎ ((cfg' : SvrCfg) × (load_switch_setting mongo fuel cfg ≡ some (cfg', true))
            × (serve_all json cfg' xs (new_server cfg') ≡ none))
unfolding main
main_leaves configuration mongo json xs fuel n last enough =
    let cfg = (parse_configuration configuration default_svr_cfg).0 in
    let res = (parse_configuration configuration default_svr_cfg).1 in
    let empty =
      subst IsTable (sym (parse_configuration-code configuration default_svr_cfg).1) (tt, tt) in
    let (cfg', fine, e, t) = load-IsTable mongo fuel n cfg last enough empty in
    elim (Bool-cases (is_exit_ok res)) [
      | inl good ↦ elim (Option-cases (after_load json xs res (cfg', fine))) [
        | inl stuck ↦
            let (loaded, stopped) = after_load-none json cfg' xs res fine stuck in
            inr (cfg', e ∙ ap (λ b. some (cfg', b)) loaded, stopped)
        | inr (r, ran) ↦
            let (code, table, end) = after_load-IsEnd json cfg' xs res fine r t good ran in
            inl (r, rw (good, e) ran, code, table, end)
      ]
      | inr bad ↦
          inl (rw bad (record { code = res; config = cfg; served = none }, refl, refl, empty, tt))
    ]
