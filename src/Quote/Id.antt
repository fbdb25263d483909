-- ===== src/Quote/Id.antt =====
-- The identifiers of quotations as they are shown and read (`Display` and `FromStr` of `QuotationId`).
pub mod RoundTrip
use irc_bot_rs.Base.{
  ℕ, zero, suc, ◌+◌, ◌-◌, ◌*◌, ◌/◌, ◌%◌, ◌^◌, Bool, true, false, ◌&&◌, Option, none, some, List, [],
  ◌∷◌, ltb, leb, ◌==◌, if◌then◌else◌, Result, ok, err,
}
use irc_bot_rs.Text.{Text}

-- `std::num::IntErrorKind`, as far as it can occur here
pub data ParseIntError : Type 0 where
  empty invalid_digit overflow : ParseIntError

-- `usize` has 64 bits.
abbrev pub usize_end : ℕ
usize_end = 2 ^ 64

abbrev pub hex_digit : ℕ → ℕ
hex_digit d = if ltb d 10 then b'0' + d else b'A' + (d - 10)

-- `char::to_digit(16)`
abbrev pub to_digit : ℕ → Option ℕ
to_digit c =
    if leb b'0' c && leb c b'9'
    then some (c - b'0')
    else if leb b'a' c && leb c b'f'
    then some (c - b'a' + 10)
    else if leb b'A' c && leb c b'F'
    then some (c - b'A' + 10)
    else none

-- The digits of `{:X}`, from the last one on.
unfoldable pub hex_digits : ℕ → ℕ → Text → Text
hex_digits zero n digits = digits
hex_digits (suc f) n digits =
    let more = hex_digits f (n / 16) (hex_digit (n % 16) ∷ digits) in
    if ltb n 16 then hex_digit n ∷ digits else more

-- `Display`: a number below `usize_end` has no more than 16 digits.
unfoldable pub print_id : ℕ → Text
unfolding hex_digits
print_id id = hex_digits 16 id []

-- The loop of `usize::from_str_radix`: `checked_mul`, then `checked_add`.
unfoldable pub digits_value : ℕ → Text → Result ParseIntError ℕ
digits_value result [] = ok result
digits_value result (c ∷ s) = elim (to_digit c) [
  | none ↦ err invalid_digit
  | some d ↦ elim (ltb (result * 16) usize_end && ltb (result * 16 + d) usize_end) [
    | true ↦ digits_value (result * 16 + d) s
    | false ↦ err overflow
  ]
]

-- Without digits, after a sign or not, the text is empty.
unfoldable pub unsigned_value : Text → Result ParseIntError ℕ
unfolding digits_value
unsigned_value [] = err empty
unsigned_value (c ∷ s) = digits_value 0 (c ∷ s)

-- `FromStr`: a leading `+` is skipped.
unfoldable pub parse_id : Text → Result ParseIntError ℕ
unfolding unsigned_value
parse_id [] = err empty
parse_id (c ∷ s) = if c == b'+' then unsigned_value s else unsigned_value (c ∷ s)
