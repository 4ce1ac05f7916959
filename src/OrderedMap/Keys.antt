-- ===== src/OrderedMap/Keys.antt =====
-- The order of a map's keys as an interface, and the two orders that the program uses.
use Prim.Native.Nat.{compare, Ordering}
use door_switch_svr.Prelude.{ℕ, List, [], ◌∷◌, ◌≡◌, refl, ◌↔◌, arith}

pub record Key (K : Type 0) : Type 0 where
  pub cmp : K → K → Ordering
  pub eq_iff : (a b : K) → (cmp a b ≡ Ordering.eq) ↔ (a ≡ b)
  pub gt_iff : (a b : K) → (cmp a b ≡ Ordering.gt) ↔ (cmp b a ≡ Ordering.lt)
  pub lt_trans : (a b c : K) → cmp a b ≡ Ordering.lt → cmp b c ≡ Ordering.lt → cmp a c ≡ Ordering.lt

abbrev pub cmp : {K : Type 0} ⦃key : Key K⦄ → K → K → Ordering
cmp ⦃key⦄ = key.cmp

pub compare-eq : (a b : ℕ) → (compare a b ≡ Ordering.eq) ↔ (a ≡ b)
compare-eq a b = ground arith

pub compare-gt : (a b : ℕ) → (compare a b ≡ Ordering.gt) ↔ (compare b a ≡ Ordering.lt)
compare-gt a b = ground arith

pub compare-lt_trans :
    (a b c : ℕ) → compare a b ≡ Ordering.lt → compare b c ≡ Ordering.lt → compare a c ≡ Ordering.lt
compare-lt_trans a b c h k = ground arith

instance abbrev pub key_ℕ : Key ℕ
key_ℕ = record {
  cmp = compare;
  eq_iff = compare-eq;
  gt_iff = compare-gt;
  lt_trans = compare-lt_trans;
}

-- `std::string::compare`: the first byte that differs decides, and a prefix comes first.
unfoldable pub compare_text : List ℕ → List ℕ → Ordering
compare_text [] [] = Ordering.eq
compare_text [] (y ∷ ys) = Ordering.lt
compare_text (x ∷ xs) [] = Ordering.gt
compare_text (x ∷ xs) (y ∷ ys) = elim (compare x y) [
  | Ordering.lt ↦ Ordering.lt
  | Ordering.eq ↦ compare_text xs ys
  | Ordering.gt ↦ Ordering.gt
]

pub compare_text-eq : (a b : List ℕ) → (compare_text a b ≡ Ordering.eq) ↔ (a ≡ b)
unfolding compare_text
compare_text-eq [] [] = ground arith
compare_text-eq [] (y ∷ ys) = ground arith
compare_text-eq (x ∷ xs) [] = ground arith
compare_text-eq (x ∷ xs) (y ∷ ys) = ground (arith, compare_text-eq xs ys)

pub compare_text-gt :
    (a b : List ℕ) → (compare_text a b ≡ Ordering.gt) ↔ (compare_text b a ≡ Ordering.lt)
unfolding compare_text
compare_text-gt [] [] = ground arith
compare_text-gt [] (y ∷ ys) = ground arith
compare_text-gt (x ∷ xs) [] = ground arith
compare_text-gt (x ∷ xs) (y ∷ ys) = ground (arith, compare_text-gt xs ys)

pub compare_text-lt_trans :
    (a b c : List ℕ)
    → compare_text a b ≡ Ordering.lt
    → compare_text b c ≡ Ordering.lt
    → compare_text a c ≡ Ordering.lt
unfolding compare_text
compare_text-lt_trans [] [] c h k = cc
compare_text-lt_trans [] (y ∷ ys) [] h k = cc
compare_text-lt_trans [] (y ∷ ys) (z ∷ zs) h k = refl
compare_text-lt_trans (x ∷ xs) [] c h k = cc
compare_text-lt_trans (x ∷ xs) (y ∷ ys) [] h k = cc
compare_text-lt_trans (x ∷ xs) (y ∷ ys) (z ∷ zs) h k =
    ground (arith, compare_text-lt_trans xs ys zs)

instance abbrev pub key_text : Key (List ℕ)
key_text = record {
  cmp = compare_text;
  eq_iff = compare_text-eq;
  gt_iff = compare_text-gt;
  lt_trans = compare_text-lt_trans;
}
