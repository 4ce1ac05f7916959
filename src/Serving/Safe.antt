-- ===== src/Serving/Safe.antt =====
-- What is kept in every state of the server: the invariant.
use door_switch_svr.Prelude.{ℕ, List, [], ◌∷◌, ◌≤◌, ◌≡◌, ◌⊎◌, some, All}
use door_switch_svr.OrderedMap.{key_ℕ, key_text, find}
use door_switch_svr.Param.{Text, SwitchInfo, SvrCfg}
use door_switch_svr.Handler.{Handler}
use door_switch_svr.Handler.Sound.{IsSound}
use door_switch_svr.Handler.Alive.{IsAlive}
use door_switch_svr.Engine.Invariant.{IsWell}
use door_switch_svr.Serving.{Sent, Server}

-- Some message asked for a door of this number.
abbrev pub WasAsked : List (Text × ℕ) → ℕ → Type 0
WasAsked [] c = ⊥
WasAsked (a ∷ asked) c = (a.1 ≡ c) ⊎ WasAsked asked c

-- The switch is one of the configuration, and has a door of this number.
abbrev pub IsDoorOf : SvrCfg → Text × ℕ → Type 0
IsDoorOf cfg (k, c) =
    (info : SwitchInfo) × (find k cfg.map_oid_switch_info ≡ some info)
    × (1 ≤ c)
    × (c ≤ info.channels)

pub record IsSafe (cfg : SvrCfg) (s : Server) : Type 0 where
  pub well : IsWell cfg s.engine
  pub alive : All (λ (e : Text × Handler). IsAlive e.1) s.engine.handlers
  pub sound : All (λ (e : Text × Handler). IsSound (WasAsked s.asked) e.1) s.engine.handlers
  pub allowed : All (IsDoorOf cfg) s.asked
  pub justified : All (λ (x : Sent). WasAsked s.asked x.channel) s.sent
