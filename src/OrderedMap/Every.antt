-- ===== src/OrderedMap/Every.antt =====
-- A property of every entry of a map, kept by what the program does to the map.
use door_switch_svr.Prelude.{[], ◌∷◌, ◌≡◌, some, arith, All}
use door_switch_svr.OrderedMap.Keys.{Key}
use door_switch_svr.OrderedMap.{Map, find, insert, adjust, last, adjust_last}

module _ {K V : Type 0} ⦃key : Key K⦄ (P : K × V → Type 0) where
  pub All-find : (k : K) (v : V) (m : Map K V) → find k m ≡ some v → All P m → P (k, v)
  unfolding find
  All-find k v [] h a = cc
  All-find k v ((j, w) ∷ m) h a = ground (arith, All-find k v m, key.eq_iff j k)

  pub All-insert : (k : K) (v : V) (m : Map K V) → P (k, v) → All P m → All P (insert k v m)
  unfolding insert
  All-insert k v [] p a = (p, tt)
  All-insert k v ((j, w) ∷ m) p a = ground (arith, All-insert k v m p a.1)

  pub All-adjust : (k : K) (v : V) (m : Map K V) → P (k, v) → All P m → All P (adjust k (λ _. v) m)
  unfolding adjust
  All-adjust k v [] p a = tt
  All-adjust k v ((j, w) ∷ m) p a = ground (arith, All-adjust k v m p a.1, key.eq_iff j k)

module _ {K V : Type 0} (P : K × V → Type 0) where
  pub All-last : (k : K) (v : V) (m : Map K V) → last m ≡ some (k, v) → All P m → P (k, v)
  unfolding last
  All-last k v [] h a = cc
  All-last k v ((j, w) ∷ []) h a = ground arith
  All-last k v ((j, w) ∷ d ∷ m) h a = All-last k v (d ∷ m) h a.1

  -- A write through `crbegin()`, of a value that is right under each key.
  pub All-adjust_last :
      (v : V) (m : Map K V) → ((k : K) → P (k, v)) → All P m → All P (adjust_last (λ _. v) m)
  unfolding adjust_last
  All-adjust_last v [] p a = tt
  All-adjust_last v ((j, w) ∷ []) p a = (p j, tt)
  All-adjust_last v ((j, w) ∷ d ∷ m) p a = (a.0, All-adjust_last v (d ∷ m) p a.1)
