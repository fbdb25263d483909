-- ===== src/Quote/Length.antt =====
-- The length of a quotation that is computed for it.
use irc_bot_rs.Base.{ℕ, ◌-◌, ◌≡◌, refl, List, [], ◌∷◌, ◌++◌, arith, Option}
use irc_bot_rs.Text.{Text, codes, len, join}
use irc_bot_rs.Text.Laws.{len-append}
use irc_bot_rs.Quote.{
  Quotation, QuotationFormat, chat, plain, by_format, sum_lens, chat_lines_stripped,
  quotation_byte_len,
}

-- What is posted of a quotation where nothing is munged: its lines with spaces between them.
abbrev pub posted_text : (Text → Option ℕ) → Quotation → Text
posted_text find_metadata q =
    by_format q.format (join (codes " ") (chat_lines_stripped find_metadata q)) q.text

sum_lens-join : (ls : List Text) → sum_lens ls - 1 ≡ len (join (codes " ") ls)
unfolding join
sum_lens-join [] = refl
sum_lens-join (l ∷ []) = omega arith
sum_lens-join (l ∷ m ∷ ls) =
    omega (arith, sum_lens-join (m ∷ ls), len-append l (codes " " ++ join (codes " ") (m ∷ ls)))

by_cases :
    (f : QuotationFormat) (ls : List Text) (t : Text)
    → by_format f (sum_lens ls - 1) (len t) ≡ len (by_format f (join (codes " ") ls) t)
by_cases chat ls t = sum_lens-join ls
by_cases plain ls t = refl

-- The length that is computed for a quotation is that of what is posted of it, where nothing is
-- munged.
pub quotation_byte_len-posted :
    (find_metadata : Text → Option ℕ) (q : Quotation)
    → quotation_byte_len find_metadata q ≡ len (posted_text find_metadata q)
unfolding quotation_byte_len
quotation_byte_len-posted find_metadata q =
    by_cases q.format (chat_lines_stripped find_metadata q) q.text
