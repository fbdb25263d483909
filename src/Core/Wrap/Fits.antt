-- ===== src/Core/Wrap/Fits.antt =====
-- Messages that need no wrapping (`wrap_msg` of src/core/irc_comm.rs).
use irc_bot_rs.Base.{
  ℕ, zero, suc, ◌+◌, ◌≤◌, ◌<◌, ◌≡◌, ◌≢◌, refl, sym, subst, inl, inr, true, false, Bool-cases, some,
  [], ◌∷◌, ◌++◌, append_assoc, append-nil, arith, ltb, leb, ◌⊎◌,
}
use irc_bot_rs.Text.{Text, char_len, len, is_whitespace, trim, slice, match_indices}
use irc_bot_rs.Text.Laws.{len-append, char_len_pos}
use irc_bot_rs.Text.Slices.{slice-append}
use irc_bot_rs.Core.Err.{done}
use irc_bot_rs.Core.Wrap.{scan, wrap_lines, wrap_msg}

slice_prefix : (pre rest : Text) → slice (pre ++ rest) 0 (len pre) ≡ some pre
slice_prefix pre rest =
    subst (λ n. slice (pre ++ rest) 0 n ≡ some pre) (omega arith) (slice-append [] pre rest)

-- In a message within the limit, the inner loop consumes every whitespace.
scan_all :
    (limit end : ℕ) (pre rest : Text)
    → len (pre ++ rest) ≤ limit
    → (e : ℕ) × (scan (pre ++ rest) limit 0 end (match_indices is_whitespace (len pre) rest)
        ≡ some (e, []))
unfolding scan match_indices
scan_all limit end pre [] h = (end, refl)
scan_all limit end pre (c ∷ s) h =
    let sum : len pre + char_len c ≡ len (pre ++ c ∷ []) = omega (arith, len-append pre (c ∷ [])) in
    let all : (end' : ℕ)
        → (e : ℕ) × (scan (pre ++ c ∷ s) limit 0 end'
              (match_indices is_whitespace (len pre + char_len c) s)
            ≡ some (e, [])) =
      λ end'.
        subst
          (λ m.
            (e : ℕ) × (scan m limit 0 end' (match_indices is_whitespace (len pre + char_len c) s)
              ≡ some (e, [])))
          (append_assoc pre (c ∷ []) s)
          (subst
            (λ n.
              (e : ℕ) × (scan ((pre ++ c ∷ []) ++ s) limit 0 end' (match_indices is_whitespace n s)
                ≡ some (e, [])))
            (sym sum)
            (scan_all limit end' (pre ++ c ∷ []) s
              (subst (λ m. len m ≤ limit) (sym (append_assoc pre (c ∷ []) s)) h))) in
    elim (Bool-cases (is_whitespace c)) [
      | inr n ↦ rw n (all end)
      | inl y ↦
          let (e, k) = all (len pre) in
          let short : ltb (len pre) limit ≡ true =
            ground (arith, h, len-append pre (c ∷ s), char_len_pos c) in
          (e, rw (y, slice_prefix pre (c ∷ s), short) k)
    ]

-- A message that is shorter than the limit, or that is as long as the limit and has no whitespace at
-- its ends.
abbrev pub Fits : ℕ → Text → Type 0
Fits limit msg = (len msg < limit) ⊎ ((len msg ≤ limit) × (msg ≢ []) × (trim msg ≡ msg))

pub at_end :
    (f : ℕ) (msg : Text) (limit : ℕ) → 0 < f → wrap_lines f msg limit (len msg) [] ≡ done []
unfolding wrap_lines
at_end zero msg limit p = absurd (omega arith)
at_end (suc f) msg limit p = let e : leb (len msg) (len msg) ≡ true = ground arith in rw e refl

pub slice_whole : (msg : Text) → slice msg 0 (len msg) ≡ some msg
slice_whole msg = subst (λ m. slice m 0 (len msg) ≡ some msg) (append-nil msg) (slice_prefix msg [])

-- Such a message is one line.
pub wrap_msg-Fits : (limit : ℕ) (msg : Text) → Fits limit msg → wrap_msg msg limit ≡ done (msg ∷ [])
unfolding wrap_msg wrap_lines
wrap_msg-Fits limit msg (inl h) =
    let short : ltb (len msg) limit ≡ true = ground arith in rw short refl
wrap_msg-Fits limit [] (inr (h, n, t)) = absurd (n refl)
wrap_msg-Fits limit (c ∷ s) (inr (h, n, t)) = elim (Bool-cases (ltb (len (c ∷ s)) limit)) [
  | inl short ↦ rw short refl
  | inr long ↦
      let (e, k) = scan_all limit 0 [] (c ∷ s) h in
      let more : leb (len (c ∷ s)) 0 ≡ false = ground (arith, char_len_pos c) in
      let pos : 0 < len (c ∷ s) = omega (arith, char_len_pos c) in
      rw (long, more, k, slice_whole (c ∷ s), at_end (len (c ∷ s)) (c ∷ s) limit pos, t) refl
]
