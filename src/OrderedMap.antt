-- ===== src/OrderedMap.antt =====
-- `std::map` as the program uses it: `find`, `insert` (which keeps an entry that is there),
-- `crbegin` (the entry of the greatest key), iteration in the order of the keys. The keys are
-- `std::string` (compared byte by byte) and `unsigned short`.
mod Keys
pub mod Laws
pub mod Every
pub use Keys.{Key, cmp, key_ℕ, key_text}
unfoldable pub use Keys.{compare_text}
use Prim.Native.Nat.{Ordering}
use door_switch_svr.Prelude.{ℕ, List, [], ◌∷◌, Option, none, some}

-- Sorted by key, each key once.
abbrev pub Map : Type 0 → Type 0 → Type 0
Map K V = List (K × V)

module _ {K V : Type 0} ⦃key : Key K⦄ where
  unfoldable pub find : K → Map K V → Option V
  find k [] = none
  find k ((j, v) ∷ m) = elim (cmp j k) [ Ordering.eq ↦ some v | _ ↦ find k m ]

  unfoldable pub insert : K → V → Map K V → Map K V
  insert k v [] = (k, v) ∷ []
  insert k v ((j, w) ∷ m) = elim (cmp j k) [
    | Ordering.lt ↦ (j, w) ∷ insert k v m
    | Ordering.eq ↦ (j, w) ∷ m
    | Ordering.gt ↦ (k, v) ∷ (j, w) ∷ m
  ]

  -- A write through an iterator: the entry of `k` becomes `f` of it, and no entry is added.
  unfoldable pub adjust : K → (V → V) → Map K V → Map K V
  adjust k f [] = []
  adjust k f ((j, v) ∷ m) = elim (cmp j k) [
    | Ordering.eq ↦ (j, f v) ∷ m
    | _ ↦ (j, v) ∷ adjust k f m
  ]

module _ {K V : Type 0} where
  -- `crbegin()`.
  unfoldable pub last : Map K V → Option (K × V)
  last [] = none
  last (e ∷ []) = some e
  last (e ∷ f ∷ m) = last (f ∷ m)

  -- A write through `crbegin()`.
  unfoldable pub adjust_last : (V → V) → Map K V → Map K V
  adjust_last f [] = []
  adjust_last f ((k, v) ∷ []) = (k, f v) ∷ []
  adjust_last f (e ∷ d ∷ m) = e ∷ adjust_last f (d ∷ m)
