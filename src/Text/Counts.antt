-- ===== src/Text/Counts.antt =====
-- How often a character occurs in a text, and what keeps that number.
use irc_bot_rs.Base.{
  ℕ, zero, suc, ◌+◌, ◌≡◌, refl, sym, ap, ◌∙◌, inl, inr, Bool, true, false, not, ◌&&◌, Bool-cases,
  List, [], ◌∷◌, ◌++◌, map, arith, ◌==◌, if◌then◌else◌, is_nil, length, drop,
}
use irc_bot_rs.Text.{
  Text, is_whitespace, trim_start_by, trim_end_by, trim, starts_with, strip_all, trim_start_text,
  cons_line, split_lines, strip_cr, lines,
}
use irc_bot_rs.Text.Laws.{starts_with_split}

-- `matches(c).count()`
abbrev pub count : ℕ → Text → ℕ
count c [] = 0
count c (d ∷ s) = (if d == c then 1 else 0) + count c s

abbrev pub total : ℕ → List Text → ℕ
total c [] = 0
total c (s ∷ ss) = count c s + total c ss

pub count-append : (c : ℕ) (s t : Text) → count c (s ++ t) ≡ count c s + count c t
count-append c [] t = omega arith
count-append c (d ∷ s) t = omega (arith, count-append c s t)

other : (c d : ℕ) (s : Text) → (d == c) ≡ false → count c (d ∷ s) ≡ count c s
other c d s h = rw h (omega arith)

differs : (c d : ℕ) (p : ℕ → Bool) → p c ≡ false → p d ≡ true → (d == c) ≡ false
differs c d p h k = elim (Bool-cases (d == c)) [
  | inl y ↦ let e : d ≡ c = ground arith in cc (k, h, ap p e)
  | inr n ↦ n
]

module _ (c : ℕ) (p : ℕ → Bool) (h : p c ≡ false) where
  count-trim_start_by : (s : Text) → count c (trim_start_by p s) ≡ count c s
  unfolding trim_start_by
  count-trim_start_by [] = refl
  count-trim_start_by (d ∷ s) = elim (Bool-cases (p d)) [
    | inl y ↦ rw y (count-trim_start_by s ∙ sym (other c d s (differs c d p h y)))
    | inr n ↦ rw n refl
  ]

  count-trim_end_by : (s : Text) → count c (trim_end_by p s) ≡ count c s
  unfolding trim_end_by
  count-trim_end_by [] = refl
  count-trim_end_by (d ∷ s) = elim (Bool-cases (p d && is_nil (trim_end_by p s))) [
    | inl y ↦ rw y (nothing_left d s (trim_end_by p s) y (count-trim_end_by s))
    | inr n ↦ rw n (omega (arith, count-trim_end_by s))
  ]
    where
      nothing_left :
          (d : ℕ) (s r : Text)
          → (p d && is_nil r) ≡ true
          → count c r ≡ count c s
          → 0 ≡ count c (d ∷ s)
      nothing_left d s [] y e = elim (Bool-cases (p d)) [
        | inl w ↦ e ∙ sym (other c d s (differs c d p h w))
        | inr n ↦ cc (rw n at y)
      ]
      nothing_left d s (k ∷ r) y e = elim (Bool-cases (p d)) [
        | inl w ↦ cc (rw w at y)
        | inr n ↦ cc (rw n at y)
      ]

pub count-trim : (c : ℕ) (s : Text) → is_whitespace c ≡ false → count c (trim s) ≡ count c s
unfolding trim
count-trim c s h =
    count-trim_end_by c is_whitespace h (trim_start_by is_whitespace s)
    ∙ count-trim_start_by c is_whitespace h s

count-strip_all :
    (c : ℕ) (f : ℕ) (s p : Text) → count c p ≡ 0 → count c (strip_all f s p) ≡ count c s
unfolding strip_all
count-strip_all c zero s p h = refl
count-strip_all c (suc f) s p h = elim (Bool-cases (not (is_nil p) && starts_with s p)) [
  | inl y ↦
      let split = starts_with_split s p (second (not (is_nil p)) (starts_with s p) y) in
      rw y (
        count-strip_all c f (drop (length p) s) p h
        ∙ omega (arith, ap (λ t. count c t) split, count-append c p (drop (length p) s)))
  | inr n ↦ rw n refl
]
  where
    second : (a b : Bool) → (a && b) ≡ true → b ≡ true
    second true b k = k
    second false b k = cc

pub count-trim_start_text :
    (c : ℕ) (s p : Text) → count c p ≡ 0 → count c (trim_start_text s p) ≡ count c s
unfolding trim_start_text
count-trim_start_text c s p h = count-strip_all c (length s) s p h

count-strip_cr : (c : ℕ) (s : Text) → (0xD == c) ≡ false → count c (strip_cr s) ≡ count c s
unfolding strip_cr
count-strip_cr c [] h = refl
count-strip_cr c (d ∷ []) h = elim (Bool-cases (d == 0xD)) [
  | inl y ↦ let e : d ≡ 0xD = ground arith in rw y (rw (e, h) refl)
  | inr n ↦ rw n refl
]
count-strip_cr c (d ∷ e ∷ s) h = omega (arith, count-strip_cr c (e ∷ s) h)

total-cons_line :
    (c d : ℕ) (ls : List Text) → total c (cons_line d ls) ≡ (if d == c then 1 else 0) + total c ls
unfolding cons_line
total-cons_line c d [] = omega arith
total-cons_line c d (l ∷ ls) = omega arith

total-split_lines : (c : ℕ) (s : Text) → (0xA == c) ≡ false → total c (split_lines s) ≡ count c s
unfolding split_lines
total-split_lines c [] h = refl
total-split_lines c (d ∷ s) h = elim (Bool-cases (d == 0xA)) [
  | inl y ↦ let e : d ≡ 0xA = ground arith in rw (y, e, h) (omega (arith, total-split_lines c s h))
  | inr n ↦ rw n (omega (arith, total-cons_line c d (split_lines s), total-split_lines c s h))
]

total-map-strip_cr :
    (c : ℕ) (ls : List Text) → (0xD == c) ≡ false → total c (map strip_cr ls) ≡ total c ls
total-map-strip_cr c [] h = refl
total-map-strip_cr c (l ∷ ls) h = omega (arith, count-strip_cr c l h, total-map-strip_cr c ls h)

-- Splitting a text into lines loses only what ends lines.
pub total-lines :
    (c : ℕ) (s : Text) → (0xA == c) ≡ false → (0xD == c) ≡ false → total c (lines s) ≡ count c s
unfolding lines
total-lines c s h k = total-map-strip_cr c (split_lines s) k ∙ total-split_lines c s h
