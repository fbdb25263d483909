-- ===== src/BTree/Laws.antt =====
-- Laws of the ordered maps.
use Prim.Native.Nat.{Ordering}
use irc_bot_rs.Base.{
  ◌≡◌, ◌≢◌, refl, sym, ap, ◌∙◌, subst, ◌⊎◌, inl, inr, Option, none, some, [], ◌∷◌, reverse_order,
}
use mathlib.Core.Option.{some-injective}
use irc_bot_rs.BTree.{Ord, Map, lookup, update, insert, Above, IsSorted}

pub Ordering-cases : (c : Ordering) → (c ≡ Ordering.lt) ⊎ ((c ≡ Ordering.eq) ⊎ (c ≡ Ordering.gt))
Ordering-cases Ordering.lt = inl refl
Ordering-cases Ordering.eq = inr (inl refl)
Ordering-cases Ordering.gt = inr (inr refl)

lt-ne-eq : Ordering.lt ≡ Ordering.eq → ⊥
lt-ne-eq h = cc

gt-ne-eq : Ordering.gt ≡ Ordering.eq → ⊥
gt-ne-eq h = cc

module _ {ℓ} {K : Type ℓ} ⦃o : Ord K⦄ where
  flip_gt : (k j : K) → o.cmp k j ≡ Ordering.gt → o.cmp j k ≡ Ordering.lt
  flip_gt k j h = o.cmp_flip k j ∙ ap reverse_order h

  pub key_cases : (j k : K) → (j ≡ k) ⊎ (j ≢ k)
  key_cases j k = elim (Ordering-cases (o.cmp j k)) [
    | inl c ↦ inr (λ e. lt-ne-eq (sym c ∙ (o.cmp_eq_iff j k).1 e))
    | inr (inl c) ↦ inl ((o.cmp_eq_iff j k).0 c)
    | inr (inr c) ↦ inr (λ e. gt-ne-eq (sym c ∙ (o.cmp_eq_iff j k).1 e))
  ]

  ne_of : (j k : K) → j ≢ k → (o.cmp j k ≡ Ordering.lt) ⊎ (o.cmp j k ≡ Ordering.gt)
  ne_of j k n = elim (Ordering-cases (o.cmp j k)) [
    | inl c ↦ inl c
    | inr (inl c) ↦ absurd (n ((o.cmp_eq_iff j k).0 c))
    | inr (inr c) ↦ inr c
  ]

module _ {ℓ κ} {K : Type ℓ} {V : Type κ} ⦃o : Ord K⦄ where
  -- An absent key stays absent below a smaller one.
  Above-trans : (j k : K) (m : Map K V) → o.cmp j k ≡ Ordering.lt → Above k m → Above j m
  Above-trans j k [] h a = tt
  Above-trans j k ((i, v) ∷ m) h (a, as') = (o.cmp_trans j k i h a, Above-trans j k m h as')

  lookup-Above : (k : K) (m : Map K V) → Above k m → lookup k m ≡ none
  unfolding lookup
  lookup-Above k [] h = refl
  lookup-Above k ((j, v) ∷ m) (h, hs) = rw h (lookup-Above k m hs)

  Above-update :
      (j k : K) (f : Option V → V) (m : Map K V)
      → o.cmp j k ≡ Ordering.lt
      → Above j m
      → Above j (update k f m)
  unfolding update
  Above-update j k f [] h a = (h, tt)
  Above-update j k f ((i, v) ∷ m) h (a, as') = elim (Ordering-cases (o.cmp k i)) [
    | inl c ↦ rw c (h, (a, as'))
    | inr (inl c) ↦ rw c (a, as')
    | inr (inr c) ↦ rw c (a, Above-update j k f m h as')
  ]

  pub IsSorted-update :
      (k : K) (f : Option V → V) (m : Map K V) → IsSorted m → IsSorted (update k f m)
  unfolding update
  IsSorted-update k f [] h = (tt, tt)
  IsSorted-update k f ((j, v) ∷ m) (a, s) = elim (Ordering-cases (o.cmp k j)) [
    | inl c ↦ rw c ((c, Above-trans k j m c a), (a, s))
    | inr (inl c) ↦ rw c (a, s)
    | inr (inr c) ↦ rw c (Above-update j k f m (flip_gt k j c) a, IsSorted-update k f m s)
  ]

  pub lookup-update_self :
      (k : K) (f : Option V → V) (m : Map K V)
      → IsSorted m
      → lookup k (update k f m) ≡ some (f (lookup k m))
  unfolding lookup update
  lookup-update_self k f [] h = rw ((o.cmp_eq_iff k k).1 refl)
  lookup-update_self k f ((j, v) ∷ m) (a, s) = elim (Ordering-cases (o.cmp k j)) [
    | inl c ↦
        rw (c, (o.cmp_eq_iff k k).1 refl)
          (ap (λ x. some (f x)) (sym (lookup-Above k m (Above-trans k j m c a))))
    | inr (inl c) ↦ rw (c, c)
    | inr (inr c) ↦ rw (c, c) (lookup-update_self k f m s)
  ]

  skip : (j k : K) (v : V) (m : Map K V) → j ≢ k → lookup j ((k, v) ∷ m) ≡ lookup j m
  unfolding lookup
  skip j k v m n = elim (ne_of j k n) [ inl c ↦ rw c | inr c ↦ rw c ]

  same_head :
      (j i : K) (v : V) (m n : Map K V)
      → lookup j m ≡ lookup j n
      → lookup j ((i, v) ∷ m) ≡ lookup j ((i, v) ∷ n)
  unfolding lookup
  same_head j i v m n h = rw h

  pub lookup-update_ne :
      (j k : K) (f : Option V → V) (m : Map K V) → j ≢ k → lookup j (update k f m) ≡ lookup j m
  unfolding update
  lookup-update_ne j k f [] n = skip j k (f none) [] n
  lookup-update_ne j k f ((i, v) ∷ m) n = elim (Ordering-cases (o.cmp k i)) [
    | inl c ↦ rw c (skip j k (f none) ((i, v) ∷ m) n)
    | inr (inl c) ↦
        let e = (o.cmp_eq_iff k i).0 c in
        rw c
          (skip j i (f (some v)) m (λ h. n (h ∙ sym e)) ∙ sym (skip j i v m (λ h. n (h ∙ sym e))))
    | inr (inr c) ↦ rw c (same_head j i v (update k f m) m (lookup-update_ne j k f m n))
  ]

  pub lookup-insert_self :
      (k : K) (v : V) (m : Map K V) → IsSorted m → lookup k (insert k v m) ≡ some v
  unfolding insert
  lookup-insert_self k v m h = lookup-update_self k (λ _. v) m h

  pub lookup-insert_ne :
      (j k : K) (v : V) (m : Map K V) → j ≢ k → lookup j (insert k v m) ≡ lookup j m
  unfolding insert
  lookup-insert_ne j k v m n = lookup-update_ne j k (λ _. v) m n

  pub IsSorted-insert : (k : K) (v : V) (m : Map K V) → IsSorted m → IsSorted (insert k v m)
  unfolding insert
  IsSorted-insert k v m h = IsSorted-update k (λ _. v) m h

  -- What is found after an update was made by it, or was there before.
  pub lookup-update_inv {μ} :
      (P : K → V → Type μ) (j k : K) (f : Option V → V) (m : Map K V) (v : V)
      → IsSorted m
      → P k (f (lookup k m))
      → ((w : V) → lookup j m ≡ some w → P j w)
      → lookup j (update k f m) ≡ some v
      → P j v
  lookup-update_inv P j k f m v s new old h = elim (key_cases j k) [
    | inl e ↦
        let at_k : lookup k (update k f m) ≡ some v =
          ap (λ i. lookup i (update k f m)) (sym e) ∙ h in
        let made : f (lookup k m) ≡ v =
          some-injective _ _ (sym (lookup-update_self k f m s) ∙ at_k) in
        subst (λ i. P i v) (sym e) (subst (P k) made new)
    | inr n ↦ old v (sym (lookup-update_ne j k f m n) ∙ h)
  ]
