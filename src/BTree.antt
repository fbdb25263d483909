-- ===== src/BTree.antt =====
-- `BTreeMap` of the standard library: the entries in increasing order of their keys.
pub mod Laws
pub mod Keys
use Prim.Native.Nat.{Ordering}
use irc_bot_rs.Base.{
  ◌≡◌, refl, sym, ap, ◌↔◌, Bool, true, false, Option, none, some, List, [], ◌∷◌, map, arith, All,
  reverse_order,
}

-- `Ord`: a total order in which equal means the same.
pub record Ord {ℓ} (K : Type ℓ) : Type ℓ where
  pub cmp : K → K → Ordering
  pub cmp_eq_iff : (a b : K) → (cmp a b ≡ Ordering.eq) ↔ (a ≡ b)
  pub cmp_flip : (a b : K) → cmp b a ≡ reverse_order (cmp a b)
  pub cmp_trans :
      (a b c : K) → cmp a b ≡ Ordering.lt → cmp b c ≡ Ordering.lt → cmp a c ≡ Ordering.lt

abbrev pub Map {ℓ κ} : Type ℓ → Type κ → Type (ℓ ⊔ κ)
Map K V = List (K × V)

abbrev pub keys {ℓ κ} : {K : Type ℓ} {V : Type κ} → Map K V → List K
keys [] = []
keys ((k, v) ∷ m) = k ∷ keys m

abbrev pub by_order {ℓ} : {A : Type ℓ} → Ordering → A → A → A → A
by_order Ordering.lt x y z = x
by_order Ordering.eq x y z = y
by_order Ordering.gt x y z = z

module _ {ℓ κ} {K : Type ℓ} {V : Type κ} ⦃o : Ord K⦄ where
  -- `get`
  unfoldable pub lookup : K → Map K V → Option V
  lookup k [] = none
  lookup k ((j, v) ∷ m) = let rest = lookup k m in by_order (o.cmp k j) rest (some v) rest

  -- `insert`, and `entry(k).or_insert_with(..)` followed by a change: the entry of `k` becomes `f` of
  -- what it was.
  unfoldable pub update : K → (Option V → V) → Map K V → Map K V
  update k f [] = (k, f none) ∷ []
  update k f ((j, v) ∷ m) =
      let rest = update k f m in
      by_order (o.cmp k j) ((k, f none) ∷ (j, v) ∷ m) ((j, f (some v)) ∷ m) ((j, v) ∷ rest)

  unfoldable pub insert : K → V → Map K V → Map K V
  unfolding update
  insert k v m = update k (λ _. v) m

  abbrev pub Above : K → Map K V → Type ℓ
  Above k [] = Unit
  Above k ((j, v) ∷ m) = (o.cmp k j ≡ Ordering.lt) × Above k m

  -- The keys increase.
  abbrev pub IsSorted : Map K V → Type ℓ
  IsSorted [] = Unit
  IsSorted ((k, v) ∷ m) = Above k m × IsSorted m
