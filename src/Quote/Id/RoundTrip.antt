-- ===== src/Quote/Id/RoundTrip.antt =====
-- An identifier that is shown is read back, and what is read is in range.
use irc_bot_rs.Base.{
  ℕ, zero, suc, ◌+◌, ◌*◌, ◌/◌, ◌%◌, ◌<◌, ◌≡◌, refl, ◌∙◌, inl, inr, true, false, ◌&&◌, Bool-cases,
  Option-cases, some, [], ◌∷◌, arith, ltb, ◌==◌, ok,
}
use irc_bot_rs.Text.{Text}
use irc_bot_rs.Quote.Id.{
  usize_end, hex_digit, to_digit, hex_digits, print_id, digits_value, unsigned_value, parse_id,
}

to_digit-hex_digit : (d : ℕ) → d < 16 → to_digit (hex_digit d) ≡ some d
to_digit-hex_digit d h = ground arith

digit_read :
    (n d : ℕ) (s : Text)
    → d < 16
    → n * 16 + d < usize_end
    → digits_value n (hex_digit d ∷ s) ≡ digits_value (n * 16 + d) s
unfolding digits_value
digit_read n d s h r =
    let a : ltb (n * 16) usize_end ≡ true = ground arith in
    let b : ltb (n * 16 + d) usize_end ≡ true = ground arith in
    rw (digits_value, to_digit-hex_digit d h, a, b) refl

-- 16 to the power `f`
abbrev pow_16 : ℕ → ℕ
pow_16 zero = 1
pow_16 (suc f) = 16 * pow_16 f

value-digits :
    (f n : ℕ) (s : Text)
    → n < pow_16 f
    → n < usize_end
    → digits_value 0 (hex_digits f n s) ≡ digits_value n s
unfolding hex_digits
value-digits zero n s h r = let e : n ≡ 0 = omega arith in rw e refl
value-digits (suc f) n s h r = elim (Bool-cases (ltb n 16)) [
  | inl small ↦
      let e : 0 * 16 + n ≡ n = omega arith in
      rw small (digit_read 0 n s (ground arith) (ground arith) ∙ rw e refl)
  | inr large ↦
      let q : n / 16 < pow_16 f = omega arith in
      let e : n / 16 * 16 + n % 16 ≡ n = omega arith in
      rw large (
        value-digits f (n / 16) (hex_digit (n % 16) ∷ s) q (omega arith)
        ∙ digit_read (n / 16) (n % 16) s (omega arith) (omega arith)
        ∙ rw e refl)
]

-- The first character of the digits is one.
abbrev StartsWithDigit : Text → Type 0
StartsWithDigit [] = ⊥
StartsWithDigit (c ∷ s) = (d : ℕ) × (d < 16) × (c ≡ hex_digit d)

hex_digits-StartsWithDigit :
    (f n : ℕ) (s : Text) → StartsWithDigit s → StartsWithDigit (hex_digits f n s)
unfolding hex_digits
hex_digits-StartsWithDigit zero n s h = h
hex_digits-StartsWithDigit (suc f) n s h = elim (Bool-cases (ltb n 16)) [
  | inl small ↦ rw small (n, ground arith, refl)
  | inr large ↦
      rw large
        (hex_digits-StartsWithDigit f (n / 16) (hex_digit (n % 16) ∷ s) (n % 16, omega arith, refl))
]

print_id-StartsWithDigit : (n : ℕ) → StartsWithDigit (print_id n)
unfolding print_id hex_digits
print_id-StartsWithDigit n = elim (Bool-cases (ltb n 16)) [
  | inl small ↦ rw small (n, ground arith, refl)
  | inr large ↦
      rw large (
        hex_digits-StartsWithDigit 15 (n / 16) (hex_digit (n % 16) ∷ [])
          (n % 16, omega arith, refl))
]

parse_id-unsigned : (s : Text) → StartsWithDigit s → parse_id s ≡ digits_value 0 s
unfolding parse_id
parse_id-unsigned [] h = absurd h
parse_id-unsigned (c ∷ s) (d, l, e) =
    let no_sign : (c == b'+') ≡ false = rw e (ground arith) in rw no_sign refl

-- An identifier that is in the range of a `usize` is read back from how it is shown.
pub parse_id-print_id : (id : ℕ) → id < usize_end → parse_id (print_id id) ≡ ok id
unfolding print_id digits_value
parse_id-print_id id h =
    parse_id-unsigned (print_id id) (print_id-StartsWithDigit id) ∙ value-digits 16 id [] h h

digits_value-lt :
    (n : ℕ) (s : Text) (id : ℕ) → n < usize_end → digits_value n s ≡ ok id → id < usize_end
unfolding digits_value
digits_value-lt n [] id l h = let e : n ≡ id = cc in omega arith
digits_value-lt n (c ∷ s) id l h = elim (Option-cases (to_digit c)) [
  | inl no_digit ↦ cc (rw (digits_value, no_digit) at h)
  | inr (d, e) ↦ elim (Bool-cases (ltb (n * 16) usize_end && ltb (n * 16 + d) usize_end)) [
    | inl fits ↦ digits_value-lt (n * 16 + d) s id (ground arith) (rw (digits_value, e, fits) at h)
    | inr large ↦ cc (rw (digits_value, e, large) at h)
  ]
]

-- What is read as an identifier, from any text, is in the range of a `usize`, and showing it and
-- reading that again yields the same identifier.
print_id-parse_id :
    (s : Text) (id : ℕ) → parse_id s ≡ ok id → (id < usize_end) × (parse_id (print_id id) ≡ ok id)
unfolding parse_id
print_id-parse_id [] id h = cc
print_id-parse_id (c ∷ s) id h = let l = in_range in (l, parse_id-print_id id l)
  where
    unsigned : (t : Text) → unsigned_value t ≡ ok id → id < usize_end
    unsigned [] k = cc
    unsigned (d ∷ t) k = digits_value-lt 0 (d ∷ t) id (omega arith) k

    in_range : id < usize_end
    in_range = elim (Bool-cases (c == b'+')) [
      | inl plus ↦ unsigned s (rw plus at h)
      | inr other ↦ unsigned (c ∷ s) (rw other at h)
    ]
