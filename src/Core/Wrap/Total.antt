-- ===== src/Core/Wrap/Total.antt =====
-- The wrapping of a message of ASCII characters ends, and does not panic.
use irc_bot_rs.Base.{
  ℕ, zero, suc, ◌+◌, ◌-◌, ◌≤◌, ◌<◌, ◌≡◌, refl, subst, ◌⊎◌, inl, inr, Bool, true, Bool-cases, some,
  List, [], ◌∷◌, arith, ltb, leb, All,
}
use irc_bot_rs.Text.{
  Text, len, char_len, is_whitespace, trim, drop_bytes, take_bytes, slice, match_indices,
}
use irc_bot_rs.Text.Slices.{slice-len}
use irc_bot_rs.Core.Err.{done}
use irc_bot_rs.Core.Wrap.Pieces.{scan_end}
use irc_bot_rs.Core.Wrap.{scan, line_end, wrap_lines, wrap_msg}

abbrev pub IsAscii : Text → Type 0
IsAscii s = All (λ c. c < 0x80) s

-- The indices rise, from the one bound to the other.
abbrev Rising : ℕ → ℕ → List ℕ → Type 0
Rising b n [] = b ≤ n
Rising b n (s ∷ r) = (b ≤ s) × Rising s n r

Rising-le : (a b n : ℕ) (r : List ℕ) → a ≤ b → Rising b n r → Rising a n r
Rising-le a b n [] h q = omega arith
Rising-le a b n (s ∷ r) h q = (omega (arith, q.0), q.1)

Rising-bound : (b n : ℕ) (r : List ℕ) → Rising b n r → b ≤ n
Rising-bound b n [] q = q
Rising-bound b n (s ∷ r) q = omega (arith, q.0, Rising-bound s n r q.1)

match_indices-Rising :
    (p : ℕ → Bool) (i : ℕ) (s : Text) → Rising i (i + len s) (match_indices p i s)
unfolding match_indices
match_indices-Rising p i [] = omega arith
match_indices-Rising p i (c ∷ s) =
    let tail : Rising (i + char_len c) (i + (char_len c + len s))
        (match_indices p (i + char_len c) s) =
      subst (λ n. Rising (i + char_len c) n (match_indices p (i + char_len c) s)) (omega arith)
        (match_indices-Rising p (i + char_len c) s) in
    elim (Bool-cases (p c)) [
      | inl y ↦ rw y (
        omega arith,
        Rising-le i (i + char_len c) (i + (char_len c + len s)) (match_indices p (i + char_len c) s)
            (omega arith) tail,
      )
      | inr n ↦ rw n (
          Rising-le i (i + char_len c) (i + (char_len c + len s))
            (match_indices p (i + char_len c) s) (omega arith) tail)
    ]

ascii_len : (c : ℕ) → c < 0x80 → char_len c ≡ 1
ascii_len c h = ground arith

drop_bytes-IsAscii :
    (n : ℕ) (s : Text)
    → IsAscii s
    → n ≤ len s
    → (t : Text) × (drop_bytes n s ≡ some t) × IsAscii t × (n + len t ≡ len s)
unfolding drop_bytes
drop_bytes-IsAscii zero [] a h = ([], refl, tt, refl)
drop_bytes-IsAscii (suc n) [] a h = absurd (omega arith)
drop_bytes-IsAscii zero (c ∷ s) a h = (c ∷ s, refl, a, omega arith)
drop_bytes-IsAscii (suc n) (c ∷ s) a h =
    let one = ascii_len c a.0 in
    let (t, e, ta, sum) = drop_bytes-IsAscii n s a.1 (omega arith) in
    (t, ground (arith), ta, omega arith)

take_bytes-IsAscii :
    (n : ℕ) (s : Text) → IsAscii s → n ≤ len s → (t : Text) × (take_bytes n s ≡ some t)
unfolding take_bytes
take_bytes-IsAscii zero [] a h = ([], refl)
take_bytes-IsAscii (suc n) [] a h = absurd (omega arith)
take_bytes-IsAscii zero (c ∷ s) a h = ([], refl)
take_bytes-IsAscii (suc n) (c ∷ s) a h =
    let one = ascii_len c a.0 in
    let (t, e) = take_bytes-IsAscii n s a.1 (omega arith) in (c ∷ t, ground (arith))

slice-IsAscii :
    (s : Text) (a b : ℕ) → IsAscii s → a ≤ b → b ≤ len s → (t : Text) × (slice s a b ≡ some t)
unfolding slice
slice-IsAscii s a b h le bound =
    let (u, e, ua, sum) = drop_bytes-IsAscii a s h (omega arith) in
    let (t, k) = take_bytes-IsAscii (b - a) u ua (omega arith) in
    let ord : leb a b ≡ true = ground arith in (t, rw (ord, e) k)

scan_total :
    (msg : Text) (limit start end : ℕ) (spaces : List ℕ)
    → IsAscii msg
    → start ≤ end
    → Rising end (len msg) spaces
    → (e : ℕ) × (rest : List ℕ) × (scan msg limit start end spaces ≡ some (e, rest))
      × (start ≤ e)
      × (e ≤ len msg)
      × ((rest ≡ []) ⊎ (Rising (start + limit) (len msg) rest))
unfolding scan
scan_total msg limit start end [] a le r = (end, [], refl, le, r, inl refl)
scan_total msg limit start end (s ∷ spaces) a le r =
    let (piece, m) =
      slice-IsAscii msg start s a (omega (arith, r.0)) (Rising-bound s (len msg) spaces r.1) in
    let sum = slice-len msg start s piece m in
    let (e, rest, k, le', bound, l) =
      scan_total msg limit start s spaces a (omega (arith, r.0)) r.1 in
    elim (Bool-cases (ltb (len piece) limit)) [
      | inl short ↦ (e, rest, rw (m, short) k, le', bound, l)
      | inr long ↦ (
        end,
        s ∷ spaces,
        rw (m, long) refl,
        le,
        Rising-bound end (len msg) (s ∷ spaces) r,
        inr (ground arith, r.1),
      )
    ]

-- The end of the line lies behind its start, and before what is not consumed.
line_end-bounds :
    (msg : Text) (limit start e : ℕ) (rest : List ℕ)
    → 0 < limit
    → start < len msg
    → start ≤ e
    → e ≤ len msg
    → (e ≡ start) ⊎ (e < start + limit)
    → ((rest ≡ []) ⊎ (Rising (start + limit) (len msg) rest))
    → (start < line_end msg limit start e rest)
      × (line_end msg limit start e rest ≤ len msg)
      × Rising (line_end msg limit start e rest) (len msg) rest
line_end-bounds msg limit start e [] p s le b q r = (s, omega arith, omega arith)
line_end-bounds msg limit start e (x ∷ rest) p s le b q (inl n) = cc
line_end-bounds msg limit start e (x ∷ rest) p s le b (inl q) (inr r) =
    (ground arith, ground arith, (ground (arith, r.0), r.1))
line_end-bounds msg limit start e (x ∷ rest) p s le b (inr q) (inr r) =
    (ground arith, ground arith, (ground (arith, r.0), r.1))

wrap_lines_total :
    (f : ℕ) (msg : Text) (limit start : ℕ) (spaces : List ℕ)
    → IsAscii msg
    → 0 < limit
    → len msg < start + f
    → Rising start (len msg) spaces
    → (lines : List Text) × (wrap_lines f msg limit start spaces ≡ done lines)
unfolding wrap_lines
wrap_lines_total zero msg limit start spaces a p fuel r =
    absurd (omega (arith, Rising-bound start (len msg) spaces r))
wrap_lines_total (suc f) msg limit start spaces a p fuel r =
    elim (Bool-cases (leb (len msg) start)) [
      | inl over ↦ ([], rw over refl)
      | inr more ↦
          let (e, rest, m, le, bound, l) =
            scan_total msg limit start start spaces a (omega arith) r in
          let (s, b, r') =
            line_end-bounds msg limit start e rest p (ground arith) le bound
              (scan_end msg limit start start spaces e rest m) l in
          let (part, k) =
            slice-IsAscii msg start (line_end msg limit start e rest) a (omega (arith, s)) b in
          let (lines, t) =
            wrap_lines_total f msg limit (line_end msg limit start e rest) rest a p (omega arith)
              r' in
          (trim part ∷ lines, rw (more, m, k, t) refl)
    ]

-- For a limit that is not zero, the wrapping of a message of ASCII characters ends without a panic.
pub wrap_msg_total :
    (msg : Text) (limit : ℕ)
    → IsAscii msg
    → 0 < limit
    → (lines : List Text) × (wrap_msg msg limit ≡ done lines)
unfolding wrap_msg
wrap_msg_total msg limit a p = elim (Bool-cases (ltb (len msg) limit)) [
  | inl short ↦ (msg ∷ [], rw short refl)
  | inr long ↦
      let (lines, e) =
        wrap_lines_total (suc (len msg)) msg limit 0 (match_indices is_whitespace 0 msg) a p
          (omega arith)
          (subst (λ n. Rising 0 n (match_indices is_whitespace 0 msg)) (omega arith)
            (match_indices-Rising is_whitespace 0 msg)) in
      (lines, rw (long, e) refl)
]
