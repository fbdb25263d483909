-- ===== src/Core/Wrap/Pieces.antt =====
-- What the lines of a wrapped message are.
use irc_bot_rs.Base.{
  ℕ, zero, suc, ◌+◌, ◌≤◌, ◌<◌, ◌≡◌, refl, sym, subst, ◌⊎◌, inl, inr, true, Bool-cases, Option-cases,
  some, List, [], ◌∷◌, ◌++◌, append_assoc, arith, ltb, leb,
}
use irc_bot_rs.Text.{Text, len, is_whitespace, trim, slice, match_indices}
use irc_bot_rs.Text.Laws.{len-append}
use irc_bot_rs.Text.Slices.{len-zero, slice-eq-some, slice-len}
use irc_bot_rs.Core.Err.{done, >>=-eq-done, done-injective}
use irc_bot_rs.Core.Wrap.{scan, line_end, wrap_lines, wrap_msg}

-- The text is cut, in order and without loss, into parts of which the lines are the trimmed forms;
-- only the last part may be longer than the limit.
abbrev pub Pieces : ℕ → Text → List Text → Type 0
Pieces limit text [] = text ≡ []
Pieces limit text (line ∷ lines) =
    (part : Text) × (rest : Text) × (text ≡ part ++ rest)
    × (line ≡ trim part)
    × ((len part ≤ limit) ⊎ (lines ≡ []))
    × Pieces limit rest lines

-- The end that the inner loop finds is the given one or lies less than the limit behind the start.
pub scan_end :
    (msg : Text) (limit start end : ℕ) (spaces : List ℕ) (e : ℕ) (rest : List ℕ)
    → scan msg limit start end spaces ≡ some (e, rest)
    → (e ≡ end) ⊎ (e < start + limit)
unfolding scan
scan_end msg limit start end [] e rest h = inl (cc)
scan_end msg limit start end (space ∷ spaces) e rest h =
    elim (Option-cases (slice msg start space)) [
      | inl n ↦ cc (rw n at h)
      | inr (piece, m) ↦ elim (Bool-cases (ltb (len piece) limit)) [
        | inl short ↦ elim (scan_end msg limit start space spaces e rest (rw (m, short) at h)) [
          | inl same ↦ inr (ground (arith, slice-len msg start space piece m))
          | inr bound ↦ inr bound
        ]
        | inr long ↦ inl (cc (rw (m, long) at h))
      ]
    ]

-- A part that is not the last one is within the limit.
part_bound :
    (msg : Text) (limit start e : ℕ) (spaces : List ℕ)
    → (e ≡ start) ⊎ (e < start + limit)
    → (line_end msg limit start e spaces ≤ start + limit)
      ⊎ (line_end msg limit start e spaces ≡ len msg)
part_bound msg limit start e [] h = inr refl
part_bound msg limit start e (s ∷ spaces) (inl h) = ground arith
part_bound msg limit start e (s ∷ spaces) (inr h) = ground arith

-- Nothing is left to send at the end of the text.
wrap_lines_end :
    (f : ℕ) (msg : Text) (limit : ℕ) (spaces : List ℕ) (lines : List Text)
    → wrap_lines f msg limit (len msg) spaces ≡ done lines
    → lines ≡ []
unfolding wrap_lines
wrap_lines_end zero msg limit spaces lines h = cc
wrap_lines_end (suc f) msg limit spaces lines h =
    let e : leb (len msg) (len msg) ≡ true = ground arith in sym (done-injective (rw e at h))

last_or_short :
    (limit : ℕ) (pre rest part : Text) (f b : ℕ) (spaces : List ℕ) (lines : List Text)
    → len pre + len part ≡ b
    → (b ≤ len pre + limit) ⊎ (b ≡ len (pre ++ rest))
    → wrap_lines f (pre ++ rest) limit b spaces ≡ done lines
    → (len part ≤ limit) ⊎ (lines ≡ [])
last_or_short limit pre rest part f b spaces lines sum (inl le) h = inl (omega arith)
last_or_short limit pre rest part f b spaces lines sum (inr e) h =
    inr (wrap_lines_end f (pre ++ rest) limit spaces lines (rw e at h))

-- The next round starts behind the part.
advance :
    (limit : ℕ) (pre rest part r : Text) (f b : ℕ) (spaces : List ℕ) (lines : List Text)
    → rest ≡ part ++ r
    → len pre + len part ≡ b
    → wrap_lines f (pre ++ rest) limit b spaces ≡ done lines
    → wrap_lines f ((pre ++ part) ++ r) limit (len (pre ++ part)) spaces ≡ done lines
advance limit pre rest part r f b spaces lines split sum h =
    rw (append_assoc pre part r, len-append pre part, sum, sym split) h

wrap_lines-Pieces :
    (f : ℕ) (limit : ℕ) (pre rest : Text) (spaces : List ℕ) (lines : List Text)
    → wrap_lines f (pre ++ rest) limit (len pre) spaces ≡ done lines
    → Pieces limit rest lines
unfolding wrap_lines
wrap_lines-Pieces zero limit pre rest spaces lines h = cc
wrap_lines-Pieces (suc f) limit pre rest spaces lines h =
    elim (Bool-cases (leb (len (pre ++ rest)) (len pre))) [
      | inl le ↦
          let e : lines ≡ [] = sym (done-injective (rw le at h)) in
          let z : rest ≡ [] = len-zero rest (ground (arith, len-append pre rest)) in rw (e, z) refl
      | inr lt ↦ elim (Option-cases (scan (pre ++ rest) limit (len pre) (len pre) spaces)) [
        | inl n ↦ cc (rw (lt, n) at h)
        | inr ((e, spaces'), m) ↦
            elim (Option-cases
              (slice (pre ++ rest) (len pre) (line_end (pre ++ rest) limit (len pre) e spaces'))) [
                | inl n ↦ cc (rw (lt, m, n) at h)
                | inr (part, k) ↦
                    let (r, split, sum) =
                      slice-eq-some pre rest (line_end (pre ++ rest) limit (len pre) e spaces') part
                        k in
                    let (ls, tail, eq) =
                      >>=-eq-done
                        (wrap_lines f (pre ++ rest) limit
                          (line_end (pre ++ rest) limit (len pre) e spaces') spaces')
                        (λ ls. done (trim part ∷ ls)) (rw (lt, m, k) at h) in
                    let bound =
                      part_bound (pre ++ rest) limit (len pre) e spaces'
                        (scan_end (pre ++ rest) limit (len pre) (len pre) spaces e spaces' m) in
                    subst (Pieces limit rest) (done-injective eq) (
                      part,
                      r,
                      split,
                      refl,
                      last_or_short limit pre rest part f
                          (line_end (pre ++ rest) limit (len pre) e spaces') spaces' ls sum bound
                          tail,
                      wrap_lines-Pieces f limit (pre ++ part) r spaces' ls (
                          advance limit pre rest part r f
                            (line_end (pre ++ rest) limit (len pre) e spaces') spaces' ls split sum
                            tail),
                    )
              ]
      ]
    ]

-- A message that is shorter than the limit is one line, as it is. Whenever the wrapping of another
-- message ends without a panic, its lines are, in order, the trimmed forms of parts that together
-- are the message, each part but the last no longer than the limit.
pub wrap_msg-Pieces :
    (msg : Text) (limit : ℕ) (lines : List Text)
    → wrap_msg msg limit ≡ done lines
    → ((len msg < limit) × (lines ≡ msg ∷ [])) ⊎ ((limit ≤ len msg) × Pieces limit msg lines)
unfolding wrap_msg
wrap_msg-Pieces msg limit lines h = elim (Bool-cases (ltb (len msg) limit)) [
  | inl short ↦ inl (ground arith, sym (done-injective (rw short at h)))
  | inr long ↦ inr (
    ground arith,
    wrap_lines-Pieces (suc (len msg)) limit [] msg (match_indices is_whitespace 0 msg) lines
        (rw long at h),
  )
]
