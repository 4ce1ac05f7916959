-- ===== src/OrderedMap/Laws.antt =====
-- What `find` and `crbegin` see after an insertion or a write through an iterator.
use Prim.Native.Nat.{Ordering}
use door_switch_svr.Prelude.{[], ◌∷◌, ◌≡◌, refl, subst, ◌≢◌, Option, none, some, arith, All}
use door_switch_svr.OrderedMap.Keys.{Key, cmp}
use door_switch_svr.OrderedMap.{Map, find, insert, adjust, last, adjust_last}

abbrev pub or_else : {V : Type 0} → Option V → Option V → Option V
or_else none o = o
or_else (some v) o = some v

pub cmp_self : {K : Type 0} ⦃key : Key K⦄ (k : K) → cmp k k ≡ Ordering.eq
cmp_self ⦃key⦄ k = (key.eq_iff k k).1 refl

pub lt-ne : {K : Type 0} ⦃key : Key K⦄ (a b : K) → cmp a b ≡ Ordering.lt → a ≢ b
lt-ne ⦃key⦄ a b l q = cc (cmp_self b, subst (λ x. cmp x b ≡ Ordering.lt) q l)

module _ {K V : Type 0} ⦃key : Key K⦄ where
  -- Every key of the map comes after `k`; before `k`.
  abbrev pub Above : K → Map K V → Type 0
  Above k m = All (λ e. cmp k e.0 ≡ Ordering.lt) m

  abbrev pub Below : K → Map K V → Type 0
  Below k m = All (λ e. cmp e.0 k ≡ Ordering.lt) m

  abbrev pub IsSorted : Map K V → Type 0
  IsSorted [] = Unit {0}
  IsSorted ((k, v) ∷ m) = Above k m × IsSorted m

  Above-insert :
      (j k : K) (v : V) (m : Map K V) → cmp j k ≡ Ordering.lt → Above j m → Above j (insert k v m)
  unfolding insert
  Above-insert j k v [] h a = (h, tt)
  Above-insert j k v ((i, w) ∷ m) h a = ground (arith, Above-insert j k v m h a.1)

  Above-trans : (j k : K) (m : Map K V) → cmp j k ≡ Ordering.lt → Above k m → Above j m
  Above-trans j k [] h a = tt
  Above-trans j k ((i, w) ∷ m) h a = (key.lt_trans j k i h a.0, Above-trans j k m h a.1)

  pub insert-IsSorted : (k : K) (v : V) (m : Map K V) → IsSorted m → IsSorted (insert k v m)
  unfolding insert
  insert-IsSorted k v [] s = (tt, tt)
  insert-IsSorted k v ((j, w) ∷ m) s =
      ground
        (arith, insert-IsSorted k v m s.1, Above-insert j k v m, Above-trans k j m, key.gt_iff j k)

  pub find-insert_self :
      (k : K) (v : V) (m : Map K V) → find k m ≡ none → find k (insert k v m) ≡ some v
  unfolding find insert
  find-insert_self k v [] h = ground (arith, cmp_self k)
  find-insert_self k v ((j, w) ∷ m) h = ground (arith, cmp_self k, find-insert_self k v m)

  pub find-insert_ne : (k j : K) (v : V) (m : Map K V) → k ≢ j → find j (insert k v m) ≡ find j m
  unfolding find insert
  find-insert_ne k j v [] h = ground (arith, key.eq_iff k j)
  find-insert_ne k j v ((i, w) ∷ m) h =
      ground (arith, key.eq_iff k j, key.eq_iff i k, find-insert_ne k j v m h)

  pub find-adjust_self :
      (k : K) (f : V → V) (m : Map K V) (v : V)
      → find k m ≡ some v
      → find k (adjust k f m) ≡ some (f v)
  unfolding find adjust
  find-adjust_self k f [] v h = cc
  find-adjust_self k f ((j, w) ∷ m) v h = ground (arith, find-adjust_self k f m v)

  pub find-adjust_ne :
      (k j : K) (f : V → V) (m : Map K V) → k ≢ j → find j (adjust k f m) ≡ find j m
  unfolding find adjust
  find-adjust_ne k j f [] h = refl
  find-adjust_ne k j f ((i, w) ∷ m) h =
      ground (arith, key.eq_iff k j, key.eq_iff i k, key.eq_iff i j, find-adjust_ne k j f m h)

  pub adjust-IsSorted : (k : K) (f : V → V) (m : Map K V) → IsSorted m → IsSorted (adjust k f m)
  unfolding adjust
  adjust-IsSorted k f [] s = tt
  adjust-IsSorted k f ((j, w) ∷ m) s =
      ground (arith, adjust-IsSorted k f m s.1, Above-adjust j k f m)
    where
      Above-adjust : (i k : K) (f : V → V) (m : Map K V) → Above i m → Above i (adjust k f m)
      Above-adjust i k f [] a = tt
      Above-adjust i k f ((j, w) ∷ m) a = ground (arith, Above-adjust i k f m a.1)

  -- The key just inserted is the last one if it is the greatest.
  pub last-insert_greatest :
      (k : K) (v : V) (m : Map K V) → Below k m → last (insert k v m) ≡ some (k, v)
  unfolding last insert
  last-insert_greatest k v [] b = refl
  last-insert_greatest k v ((i, w) ∷ []) b = ground arith
  last-insert_greatest k v ((i, w) ∷ (j, u) ∷ m) b =
      ground (arith, last-insert_greatest k v ((j, u) ∷ m) b.1)

  -- Otherwise the last entry is the one that was last before.
  pub last-insert_lt :
      (k j : K) (v w : V) (m : Map K V)
      → IsSorted m
      → last m ≡ some (j, w)
      → cmp k j ≡ Ordering.lt
      → last (insert k v m) ≡ some (j, w)
  unfolding last insert
  last-insert_lt k j v w [] s h l = cc
  last-insert_lt k j v w ((i, u) ∷ []) s h l = ground (arith, key.gt_iff i k)
  last-insert_lt k j v w ((i, u) ∷ (i', u') ∷ m) s h l =
      ground (arith, last-insert_lt k j v w ((i', u') ∷ m) s.1)

  last-Above :
      (k : K) (m : Map K V) (j : K) (w : V)
      → Above k m
      → last m ≡ some (j, w)
      → cmp k j ≡ Ordering.lt
  unfolding last
  last-Above k [] j w a h = cc
  last-Above k ((i, u) ∷ []) j w a h = ground arith
  last-Above k ((i, u) ∷ (i', u') ∷ m) j w a h = ground (arith, last-Above k ((i', u') ∷ m) j w a.1)

  pub find-last :
      (j : K) (w : V) (m : Map K V) → IsSorted m → last m ≡ some (j, w) → find j m ≡ some w
  unfolding last find
  find-last j w [] s h = cc
  find-last j w ((i, u) ∷ []) s h = ground (arith, cmp_self j)
  find-last j w ((i, u) ∷ (i', u') ∷ m) s h =
      ground (arith, find-last j w ((i', u') ∷ m) s.1, last-Above i ((i', u') ∷ m) j w s.0)

  -- A write through `crbegin()` is a write to the entry of the greatest key.
  pub adjust_last-adjust :
      (j : K) (w : V) (f : V → V) (m : Map K V)
      → IsSorted m
      → last m ≡ some (j, w)
      → adjust_last f m ≡ adjust j f m
  unfolding last adjust_last adjust
  adjust_last-adjust j w f [] s h = cc
  adjust_last-adjust j w f ((i, u) ∷ []) s h = ground (arith, cmp_self j)
  adjust_last-adjust j w f ((i, u) ∷ (i', u') ∷ m) s h =
      ground
        (arith, adjust_last-adjust j w f ((i', u') ∷ m) s.1, last-Above i ((i', u') ∷ m) j w s.0)

  last-cons-ne-none : (e : K × V) (m : Map K V) → last (e ∷ m) ≢ none
  unfolding last
  last-cons-ne-none e [] = λ h. cc
  last-cons-ne-none e (d ∷ m) = last-cons-ne-none d m

  pub last-insert-ne-none : (k : K) (v : V) (m : Map K V) → last (insert k v m) ≢ none
  unfolding insert
  last-insert-ne-none k v [] = last-cons-ne-none (k, v) []
  last-insert-ne-none k v ((j, w) ∷ m) = ground (
    arith,
    last-cons-ne-none (j, w) m,
    last-cons-ne-none (k, v) ((j, w) ∷ m),
    last-cons-ne-none (j, w) (insert k v m),
  )

  find-Above : (k : K) (m : Map K V) → Above k m → find k m ≡ none
  unfolding find
  find-Above k [] a = refl
  find-Above k ((i, w) ∷ m) a = ground (arith, find-Above k m a.1, key.gt_iff i k)

  -- An insertion never changes an entry that is there.
  pub find-insert :
      (k j : K) (v : V) (m : Map K V)
      → IsSorted m
      → find j (insert k v m)
        ≡ or_else (find j m) (elim (cmp k j) [ Ordering.eq ↦ some v | _ ↦ none ])
  unfolding find insert
  find-insert k j v [] s = ground arith
  find-insert k j v ((i, w) ∷ m) s = ground (
    arith,
    find-insert k j v m s.1,
    key.eq_iff i j,
    key.eq_iff i k,
    key.eq_iff k j,
    key.gt_iff i k,
    find-Above k m,
    Above-trans k i m,
  )

  -- A new entry that is written at once.
  pub adjust-insert :
      (k : K) (v w : V) (m : Map K V)
      → find k m ≡ none
      → adjust k (λ _. w) (insert k v m) ≡ insert k w m
  unfolding find insert adjust
  adjust-insert k v w [] absent = ground (arith, cmp_self k)
  adjust-insert k v w ((j, u) ∷ m) absent =
      ground (arith, cmp_self k, adjust-insert k v w m, key.gt_iff j k)
