-- ===== src/Quote/Pick/ById.antt =====
-- Asking for a quotation by the identifier that is shown for it.
use irc_bot_rs.Base.{
  ℕ, zero, suc, ◌<◌, ◌≡◌, refl, sym, subst, arith, some, List, [], ◌∷◌, length, get_elem?,
}
use irc_bot_rs.Core.Handler.{got}
use irc_bot_rs.Quote.{Quotation, QuotationDatabase, get_quotation_by_id}
use irc_bot_rs.Quote.Database.View.{IsConsistent, Numbered-get_elem?}
use irc_bot_rs.Quote.Id.{usize_end, print_id}
use irc_bot_rs.Quote.Id.RoundTrip.{parse_id-print_id}
use irc_bot_rs.Quote.Pick.{QuoteEnv, looked_up, get_quotation_by_user_specified_id}

get_elem?-lt : {A : Type 0} (xs : List A) (i : ℕ) (x : A) → get_elem? xs i ≡ some x → i < length xs
get_elem?-lt [] i x h = cc
get_elem?-lt (y ∷ xs) zero x h = omega arith
get_elem?-lt (y ∷ xs) (suc i) x h = omega (arith, get_elem?-lt xs i x h)

-- In a consistent database with fewer quotations than a `usize` can count, asking for the identifier
-- that is shown for a quotation finds that quotation.
pub get_quotation_by_user_specified_id-print_id :
    (q_env : QuoteEnv) (qdb : QuotationDatabase) (i : ℕ) (q : Quotation)
    → IsConsistent qdb
    → length qdb.quotations < usize_end
    → get_elem? qdb.quotations i ≡ some q
    → get_quotation_by_user_specified_id q_env qdb (print_id q.id) ≡ got q
unfolding get_quotation_by_user_specified_id get_quotation_by_id
get_quotation_by_user_specified_id-print_id q_env qdb i q c l e =
    let k : q.id ≡ i =
      omega (arith, Numbered-get_elem? Quotation.id 0 qdb.quotations i q c.ids e) in
    let below : i < length qdb.quotations = get_elem?-lt qdb.quotations i q e in
    let found : get_elem? qdb.quotations q.id ≡ some q =
      subst (λ j. get_elem? qdb.quotations j ≡ some q) (sym k) e in
    rw (parse_id-print_id q.id (omega arith)) (rw (looked_up, found) refl)
