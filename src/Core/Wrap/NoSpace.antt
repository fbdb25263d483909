-- ===== src/Core/Wrap/NoSpace.antt =====
-- Messages without whitespace (`wrap_msg` of src/core/irc_comm.rs).
use irc_bot_rs.Base.{
  ℕ, ◌+◌, ◌<◌, ◌≡◌, ◌≢◌, refl, inl, inr, Bool, false, Bool-cases, [], ◌∷◌, arith, ltb, leb,
}
use irc_bot_rs.Text.{
  Text, len, char_len, is_whitespace, trim, trim_start_by, trim_end_by, match_indices,
}
use irc_bot_rs.Text.Laws.{Lacks, char_len_pos}
use irc_bot_rs.Core.Err.{done}
use irc_bot_rs.Core.Wrap.{scan, wrap_lines, wrap_msg}
use irc_bot_rs.Core.Wrap.Fits.{at_end, slice_whole}

-- Texts without whitespace
no_indices : (p : ℕ → Bool) (i : ℕ) (s : Text) → Lacks p s → match_indices p i s ≡ []
unfolding match_indices
no_indices p i [] h = refl
no_indices p i (c ∷ s) h = rw h.0 (no_indices p (i + char_len c) s h.1)

trim_end_by-Lacks : (p : ℕ → Bool) (s : Text) → Lacks p s → trim_end_by p s ≡ s
unfolding trim_end_by
trim_end_by-Lacks p [] h = refl
trim_end_by-Lacks p (c ∷ s) h = rw (h.0, trim_end_by-Lacks p s h.1) refl

trim_start_by-Lacks : (p : ℕ → Bool) (s : Text) → Lacks p s → trim_start_by p s ≡ s
unfolding trim_start_by
trim_start_by-Lacks p [] h = refl
trim_start_by-Lacks p (c ∷ s) h = rw h.0 refl

pub trim-Lacks : (s : Text) → Lacks is_whitespace s → trim s ≡ s
unfolding trim
trim-Lacks s h = rw (trim_start_by-Lacks is_whitespace s h) (trim_end_by-Lacks is_whitespace s h)

len_pos : (s : Text) → s ≢ [] → 0 < len s
len_pos [] h = absurd (h refl)
len_pos (c ∷ s) h = omega (arith, char_len_pos c)

-- A message that is not empty and has no whitespace is sent as one line, however long it is and
-- however small the limit.
wrap_msg_no_space :
    (msg : Text) (limit : ℕ)
    → Lacks is_whitespace msg
    → msg ≢ []
    → wrap_msg msg limit ≡ done (msg ∷ [])
unfolding wrap_msg wrap_lines scan
wrap_msg_no_space msg limit h n = elim (Bool-cases (ltb (len msg) limit)) [
  | inl short ↦ rw short refl
  | inr long ↦
      let pos = len_pos msg n in
      let more : leb (len msg) 0 ≡ false = ground arith in
      rw
        (
          long,
          no_indices is_whitespace 0 msg h,
          more,
          slice_whole msg,
          at_end (len msg) msg limit pos,
          trim-Lacks msg h,
        )
        refl
]
