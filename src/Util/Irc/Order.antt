-- ===== src/Util/Irc/Order.antt =====
-- The comparison of names up to case is an order.
use Prim.Native.Nat.{Ordering}
use irc_bot_rs.Base.{◌≡◌, ◌↔◌, reverse_order}
use irc_bot_rs.BTree.Keys.{text_ord}
use irc_bot_rs.Text.{Text}
use irc_bot_rs.Util.Irc.{fold, case_insensitive_str_cmp}

-- The comparison of names up to case is an order: equal are exactly the names with the same folded
-- form, swapping the names swaps the result, and it is transitive.
case_insensitive_str_cmp-order :
    ((x y : Text) → (case_insensitive_str_cmp x y ≡ Ordering.eq) ↔ (fold x ≡ fold y))
    × ((x y : Text) → case_insensitive_str_cmp y x ≡ reverse_order (case_insensitive_str_cmp x y))
    × ((x y z : Text)
        → case_insensitive_str_cmp x y ≡ Ordering.lt
        → case_insensitive_str_cmp y z ≡ Ordering.lt
        → case_insensitive_str_cmp x z ≡ Ordering.lt)
unfolding case_insensitive_str_cmp
case_insensitive_str_cmp-order = (
  λ x y. text_ord.cmp_eq_iff (fold x) (fold y),
  λ x y. text_ord.cmp_flip (fold x) (fold y),
  λ x y z. text_ord.cmp_trans (fold x) (fold y) (fold z),
)
