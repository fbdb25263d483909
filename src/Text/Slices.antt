-- ===== src/Text/Slices.antt =====
-- Laws of slices of texts by byte indices.
use irc_bot_rs.Base.{
  ℕ, ◌+◌, ◌≡◌, refl, ap, inl, inr, Bool-cases, Option-cases, leb, ◌-◌, ◌==◌, some, [], ◌∷◌, ◌++◌,
  arith,
}
use mathlib.Core.Option.{some-injective}
use irc_bot_rs.Text.{Text, char_len, len, drop_bytes, take_bytes, slice}
use irc_bot_rs.Text.Laws.{char_len_pos}

-- Slices

add_sub : (a b : ℕ) → a + b - a ≡ b
add_sub a b = omega arith

pub len-zero : (s : Text) → len s ≡ 0 → s ≡ []
len-zero [] h = refl
len-zero (c ∷ s) h = absurd (omega (arith, char_len_pos c))

pub drop_bytes-append : (s t : Text) → drop_bytes (len s) (s ++ t) ≡ some t
unfolding drop_bytes
drop_bytes-append [] [] = refl
drop_bytes-append [] (c ∷ t) = refl
drop_bytes-append (c ∷ s) t = ground (
  arith,
  char_len_pos c,
  drop_bytes-append s t,
  ap (λ n. drop_bytes n (s ++ t)) (add_sub (char_len c) (len s)),
)

pub take_bytes-eq-some :
    (n : ℕ) (s t : Text) → take_bytes n s ≡ some t → (r : Text) × (s ≡ t ++ r) × (len t ≡ n)
unfolding take_bytes
take_bytes-eq-some n [] t h = ([], ground arith, ground arith)
take_bytes-eq-some n (c ∷ s) t h = elim (Bool-cases (n == 0)) [
  | inl z ↦ (c ∷ s, ground arith, ground arith)
  | inr p ↦ elim (Bool-cases (leb (char_len c) n)) [
    | inl b ↦ elim (Option-cases (take_bytes (n - char_len c) s)) [
      | inl e ↦ cc (rw (p, b, e) at h)
      | inr (u, e) ↦
          let (r, m, l) = take_bytes-eq-some (n - char_len c) s u e in
          let k : c ∷ u ≡ t = some-injective _ _ (rw (p, b, e) at h) in
          (r, rw (← k, m), rw (← k) (ground (arith, l)))
    ]
    | inr b ↦ cc (rw (p, b) at h)
  ]
]

pub take_bytes-append : (s t : Text) → take_bytes (len s) (s ++ t) ≡ some s
unfolding take_bytes
take_bytes-append [] [] = refl
take_bytes-append [] (c ∷ t) = refl
take_bytes-append (c ∷ s) t = ground (
  arith,
  char_len_pos c,
  take_bytes-append s t,
  ap (λ n. take_bytes n (s ++ t)) (add_sub (char_len c) (len s)),
)

-- A slice that succeeds, seen from a known front part.
pub slice-eq-some :
    (pre rest : Text) (b : ℕ) (t : Text)
    → slice (pre ++ rest) (len pre) b ≡ some t
    → (r : Text) × (rest ≡ t ++ r) × (len pre + len t ≡ b)
unfolding slice
slice-eq-some pre rest b t h = elim (Bool-cases (leb (len pre) b)) [
  | inl le ↦
      let (r, e, l) =
        take_bytes-eq-some (b - len pre) rest t (rw (le, drop_bytes-append pre rest) at h) in
      (r, e, ground (arith, l))
  | inr gt ↦ cc (rw gt at h)
]

-- The part after a front part can be sliced.
pub slice-append : (pre t r : Text) → slice (pre ++ (t ++ r)) (len pre) (len pre + len t) ≡ some t
unfolding slice
slice-append pre t r =
    rw (drop_bytes-append pre (t ++ r), add_sub (len pre) (len t))
      (ground (arith, take_bytes-append t r))

pub slice-len : (s : Text) (a b : ℕ) (t : Text) → slice s a b ≡ some t → a + len t ≡ b
unfolding slice
slice-len s a b t h = elim (Bool-cases (leb a b)) [
  | inl le ↦ elim (Option-cases (drop_bytes a s)) [
    | inl n ↦ cc (rw (le, n) at h)
    | inr (u, e) ↦
        let (r, _, l) = take_bytes-eq-some (b - a) u t (rw (le, e) at h) in ground (arith, l)
  ]
  | inr gt ↦ cc (rw gt at h)
]
