-- ===== src/BTree/Keys.antt =====
-- The orders of the keys: texts, trigger priorities and server identifiers.
use Prim.Native.Nat.{Ordering, compare}
use irc_bot_rs.Base.{ℕ, ◌≡◌, refl, subst, ◌↔◌, [], ◌∷◌, arith, reverse_order}
use irc_bot_rs.Text.{Text}
use irc_bot_rs.BTree.{Ord, by_order}
use irc_bot_rs.Core.Err.{ServerId}
use irc_bot_rs.Core.ModlSys.{TriggerPriority, minimum, low, medium, high, maximum}

-- The order of the bytes of two texts, which is that of their characters.
abbrev pub text_cmp : Text → Text → Ordering
text_cmp [] [] = Ordering.eq
text_cmp [] (d ∷ t) = Ordering.lt
text_cmp (c ∷ s) [] = Ordering.gt
text_cmp (c ∷ s) (d ∷ t) =
    let rest = text_cmp s t in by_order (compare c d) Ordering.lt rest Ordering.gt

pub text_cmp_eq→ : (s t : Text) → text_cmp s t ≡ Ordering.eq → s ≡ t
text_cmp_eq→ [] [] h = refl
text_cmp_eq→ [] (d ∷ t) h = cc
text_cmp_eq→ (c ∷ s) [] h = cc
text_cmp_eq→ (c ∷ s) (d ∷ t) h = ground (arith, text_cmp_eq→ s t)

pub text_cmp_refl : (s : Text) → text_cmp s s ≡ Ordering.eq
text_cmp_refl [] = refl
text_cmp_refl (c ∷ s) = ground (arith, text_cmp_refl s)

pub text_cmp_flip : (s t : Text) → text_cmp t s ≡ reverse_order (text_cmp s t)
text_cmp_flip [] [] = refl
text_cmp_flip [] (d ∷ t) = refl
text_cmp_flip (c ∷ s) [] = refl
text_cmp_flip (c ∷ s) (d ∷ t) = ground (arith, text_cmp_flip s t)

pub text_cmp_trans :
    (s t u : Text)
    → text_cmp s t ≡ Ordering.lt
    → text_cmp t u ≡ Ordering.lt
    → text_cmp s u ≡ Ordering.lt
text_cmp_trans [] [] [] h k = cc
text_cmp_trans [] (d ∷ t) [] h k = cc
text_cmp_trans [] t (e ∷ u) h k = refl
text_cmp_trans (c ∷ s) [] u h k = cc
text_cmp_trans (c ∷ s) (d ∷ t) [] h k = cc
text_cmp_trans (c ∷ s) (d ∷ t) (e ∷ u) h k = ground (arith, text_cmp_trans s t u)

pub text_cmp_eq_iff : (s t : Text) → (text_cmp s t ≡ Ordering.eq) ↔ (s ≡ t)
text_cmp_eq_iff s t =
    (text_cmp_eq→ s t, λ e. subst (λ u. text_cmp s u ≡ Ordering.eq) e (text_cmp_refl s))

instance abbrev pub text_ord : Ord Text
text_ord = record {
  cmp = text_cmp;
  cmp_eq_iff = text_cmp_eq_iff;
  cmp_flip = text_cmp_flip;
  cmp_trans = text_cmp_trans;
}

abbrev rank : TriggerPriority → ℕ
rank minimum = 0
rank low = 1
rank medium = 2
rank high = 3
rank maximum = 4

abbrev pub priority_cmp : TriggerPriority → TriggerPriority → Ordering
priority_cmp a b = compare (rank a) (rank b)

pub priority_eq : (a b : TriggerPriority) → (priority_cmp a b ≡ Ordering.eq) ↔ (a ≡ b)
priority_eq a b = ground arith

pub priority_flip : (a b : TriggerPriority) → priority_cmp b a ≡ reverse_order (priority_cmp a b)
priority_flip a b = ground arith

pub priority_trans :
    (a b c : TriggerPriority)
    → priority_cmp a b ≡ Ordering.lt
    → priority_cmp b c ≡ Ordering.lt
    → priority_cmp a c ≡ Ordering.lt
priority_trans a b c h k = ground arith

instance abbrev pub priority_ord : Ord TriggerPriority
priority_ord = record {
  cmp = priority_cmp;
  cmp_eq_iff = priority_eq;
  cmp_flip = priority_flip;
  cmp_trans = priority_trans;
}

-- The derived order: the identifier first, then the index.
abbrev pub server_id_cmp : ServerId → ServerId → Ordering
server_id_cmp a b =
    by_order (compare a.uuid b.uuid) Ordering.lt (compare a.config_idx.index b.config_idx.index)
      Ordering.gt

pub server_id_eq : (a b : ServerId) → (server_id_cmp a b ≡ Ordering.eq) ↔ (a ≡ b)
server_id_eq a b = ground arith

pub server_id_flip : (a b : ServerId) → server_id_cmp b a ≡ reverse_order (server_id_cmp a b)
server_id_flip a b = ground arith

pub server_id_trans :
    (a b c : ServerId)
    → server_id_cmp a b ≡ Ordering.lt
    → server_id_cmp b c ≡ Ordering.lt
    → server_id_cmp a c ≡ Ordering.lt
server_id_trans a b c h k = ground arith

instance abbrev pub server_id_ord : Ord ServerId
server_id_ord = record {
  cmp = server_id_cmp;
  cmp_eq_iff = server_id_eq;
  cmp_flip = server_id_flip;
  cmp_trans = server_id_trans;
}
