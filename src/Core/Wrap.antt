-- ===== src/Core/Wrap.antt =====
-- The wrapping of long messages (`wrap_msg` of src/core/irc_comm.rs).
pub mod Fits
pub mod Pieces
pub mod Total
pub mod NoSpace
use irc_bot_rs.Base.{
  ℕ, zero, suc, ◌+◌, ◌-◌, min, Bool, true, false, Option, none, some, List, [], ◌∷◌, ltb, leb,
  if◌then◌else◌, is_nil, on_option,
}
use irc_bot_rs.Text.{Text, len, is_whitespace, trim, slice, match_indices}
use irc_bot_rs.Core.Err.{Outcome, done, failed, panicked, out_of_fuel, ◌>>=◌}

-- The inner loop: while the text up to the next whitespace is short enough, the line ends there.
-- `none` is a panic of the slice.
unfoldable pub scan : Text → ℕ → ℕ → ℕ → List ℕ → Option (ℕ × List ℕ)
scan msg limit start end [] = some (end, [])
scan msg limit start end (space ∷ spaces) =
    let rest = scan msg limit start space spaces in
    on_option (slice msg start space) none
      λ piece. if ltb (len piece) limit then rest else some (end, space ∷ spaces)

-- Where the line ends after the inner loop.
abbrev pub line_end : Text → ℕ → ℕ → ℕ → List ℕ → ℕ
line_end msg limit start end spaces =
    if is_nil spaces then len msg else if leb end start then min (start + limit) (len msg) else end

-- The lines from byte `start` on; `spaces` are the whitespaces that are not yet consumed.
unfoldable pub wrap_lines : ℕ → Text → ℕ → ℕ → List ℕ → Outcome (List Text)
unfolding scan
wrap_lines zero msg limit start spaces = out_of_fuel
wrap_lines (suc f) msg limit start spaces =
    let more = on_option (scan msg limit start start spaces) panicked λ (end, spaces').
      (let end' = line_end msg limit start end spaces' in
        on_option (slice msg start end') panicked
          λ line. (do lines ← wrap_lines f msg limit end' spaces'; done (trim line ∷ lines))) in
    if leb (len msg) start then done [] else more

-- The lines that `f` is called with, for a limit of bytes.
unfoldable pub wrap_msg : Text → ℕ → Outcome (List Text)
unfolding wrap_lines
wrap_msg msg limit =
    if ltb (len msg) limit
    then done (msg ∷ [])
    else wrap_lines (suc (len msg)) msg limit 0 (match_indices is_whitespace 0 msg)
