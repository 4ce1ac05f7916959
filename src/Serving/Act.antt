-- ===== src/Serving/Act.antt =====
-- The invariant under what the threads of a handler do.
use door_switch_svr.Prelude.{ℕ, ◌≡◌, refl, inl, inr, true, Option, none, some, All, All-append}
use door_switch_svr.OrderedMap.{key_ℕ, key_text, find}
use door_switch_svr.OrderedMap.Laws.{adjust-IsSorted}
use door_switch_svr.OrderedMap.Every.{All-find, All-adjust}
use door_switch_svr.Param.{Text, SwitchType, SvrCfg}
use door_switch_svr.Controller.{Controller}
use door_switch_svr.Controller.Run.{Request, turn}
use door_switch_svr.Controller.Kept.{unstarted-silent}
use door_switch_svr.Handler.{Handler}
use door_switch_svr.Handler.Event.{
  Event, timer_fires, timer_returns, connects, opens, thread_turns, reads, checks, step, step-kept,
}
use door_switch_svr.Handler.Kept.{IsFor, own-IsFor}
use door_switch_svr.Handler.Sound.{IsSoundDoor, IsSound, own-IsSound, IsSoundEntry, IsFair}
use door_switch_svr.Handler.Alive.{IsAlive, own-IsAlive}
use door_switch_svr.Engine.Invariant.{IsServed}
use door_switch_svr.Serving.{Sent, Server, sends, sends_found, sent_by, act, is_own}
use door_switch_svr.Serving.Safe.{WasAsked, IsSafe}

pub own-IsFair : (Q : ℕ → Type 0) (e : Event) → is_own e ≡ true → IsFair Q e
own-IsFair Q (timer_fires error) o = tt
own-IsFair Q timer_returns o = tt
own-IsFair Q (connects error) o = tt
own-IsFair Q (opens channel close_after now) o = absurd (cc)
own-IsFair Q (thread_turns channel result now) o = tt
own-IsFair Q (reads channel ec size) o = tt
own-IsFair Q (checks channel now) o = tt

-- What a door's thread sends has a property `R` that commands for channels of `Q` have.
module _ (Q : ℕ → Type 0) (k : Text) (R : Sent → Type 0)
    (allowed : (r : Request) (c : ℕ)
      → Q c
      → R (record { switch_id = k; request = r; channel = c })) where
  sent_by-IsJustified : (channel : ℕ) (o : Option Request) → Q channel → All R (sent_by k channel o)
  unfolding sent_by
  sent_by-IsJustified channel none q = tt
  sent_by-IsJustified channel (some r) q = (allowed r channel q, tt)

  -- A thread that was never started sends nothing.
  turn-IsJustified :
      (type : SwitchType) (now : ℕ) (c : Controller)
      → IsSoundDoor Q c
      → All R (sent_by k c.channel (turn type now c.worker).1)
  turn-IsJustified type now c (inl n) =
      rw (unstarted-silent type now c.worker n) (unfold sent_by in tt)
  turn-IsJustified type now c (inr (callback, q)) = sent_by-IsJustified c.channel _ q

  sends_found-IsJustified :
      (channel now : ℕ) (o : Option Controller) (h : Handler)
      → find channel h.controllers ≡ o
      → IsSound Q h
      → All R (sends_found k now h o)
  unfolding sends_found
  sends_found-IsJustified channel now none h found s = tt
  sends_found-IsJustified channel now (some c) h found s =
      turn-IsJustified h.switch_info.type now c
        (All-find (IsSoundEntry Q) channel c h.controllers found s)

  pub sends-IsJustified : (e : Event) (h : Handler) → IsSound Q h → All R (sends k e h)
  unfolding sends
  sends-IsJustified (timer_fires error) h s = tt
  sends-IsJustified timer_returns h s = tt
  sends-IsJustified (connects error) h s = tt
  sends-IsJustified (opens channel close_after now) h s = tt
  sends-IsJustified (thread_turns channel result now) h s =
      sends_found-IsJustified channel now (find channel h.controllers) h refl s
  sends-IsJustified (reads channel ec size) h s = tt
  sends-IsJustified (checks channel now) h s = tt

pub act-IsSafe :
    (cfg : SvrCfg) (k : Text) (e : Event) (h h' : Handler) (s : Server)
    → is_own e ≡ true
    → find k s.engine.handlers ≡ some h
    → step e h ≡ some h'
    → IsSafe cfg s
    → IsSafe cfg (act k e h h' s)
unfolding act
act-IsSafe cfg k e h h' s own found moved i =
    let Q : ℕ → Type 0 = WasAsked s.asked in
    let (info, entry, kept) = All-find (IsServed cfg) k h s.engine.handlers found i.well.served in
    let alive =
      All-find (λ (x : Text × Handler). IsAlive x.1) k h s.engine.handlers found i.alive in
    let sound =
      All-find (λ (x : Text × Handler). IsSound Q x.1) k h s.engine.handlers found i.sound in
    record {
      well = record {
        sorted = adjust-IsSorted k (λ _. h') s.engine.handlers i.well.sorted;
        served =
            All-adjust (IsServed cfg) k h' s.engine.handlers
              (info, entry, step-kept _ (IsFor info) (own-IsFor info) e h h' moved tt kept)
              i.well.served;
      };
      alive =
          All-adjust (λ (x : Text × Handler). IsAlive x.1) k h' s.engine.handlers
            (step-kept _ IsAlive own-IsAlive e h h' moved tt alive) i.alive;
      sound =
          All-adjust (λ (x : Text × Handler). IsSound Q x.1) k h' s.engine.handlers
            (step-kept (IsFair Q) (IsSound Q) (own-IsSound Q) e h h' moved (own-IsFair Q e own)
              sound)
            i.sound;
      allowed = i.allowed;
      justified =
          All-append (λ (x : Sent). Q x.channel) (sends k e h) s.sent
            (sends-IsJustified Q k (λ (x : Sent). Q x.channel) (λ r c q. q) e h sound) i.justified;
    }
