-- ===== src/Util/Munge.antt =====
-- `zwsp_munge` and its iterator `Munge` (src/util/mod.rs).
pub mod Items
pub mod Points
pub mod Lengths
use irc_bot_rs.Base.{
  ℕ, zero, suc, ◌+◌, ◌-◌, ◌*◌, Bool, true, false, Option, none, some, List, [], ◌∷◌, ◌++◌, map, ltb,
  leb, ◌==◌, if◌then◌else◌, on_option, length, is_nil,
}
use irc_bot_rs.Text.{Text, char_len, len, starts_with, slice}
use irc_bot_rs.Core.Err.{Outcome, done, panicked, out_of_fuel, ◌>>=◌}

-- The points are a stack in the source, with the first point on top; here they are in increasing order.
pub record Munge : Type 0 where
  pub string : Text
  pub munge_points : List ℕ
  pub pos : ℕ
  pub munging : Bool

abbrev pub zwsp : Text
zwsp = 0x200B ∷ []

-- The byte indices of `match_indices` with a text that is not empty: `i` is the index of the text
-- that is left, and `skip` the characters that belong to the last match.
unfoldable pub text_indices : Text → ℕ → ℕ → Text → List ℕ
text_indices p i skip [] = []
text_indices p i skip (c ∷ s) =
    let skipping = text_indices p (i + char_len c) (skip - 1) s in
    let matched = text_indices p (i + char_len c) (length p - 1) s in
    if ltb 0 skip then skipping else if starts_with (c ∷ s) p then i ∷ matched else skipping

-- The points of one needle: behind the first character of each match. A needle of one character, or
-- none, has none.
unfoldable pub needle_points : Text → Text → List ℕ
unfolding text_indices
needle_points string [] = []
needle_points string (c ∷ []) = []
needle_points string (c ∷ d ∷ p) = map (λ i. i + char_len c) (text_indices (c ∷ d ∷ p) 0 0 string)

-- `sort_unstable_by` and `dedup`, one point at a time
unfoldable pub insert_point : ℕ → List ℕ → List ℕ
insert_point i [] = i ∷ []
insert_point i (j ∷ points) =
    let rest = insert_point i points in
    if ltb i j then i ∷ j ∷ points else if i == j then j ∷ points else j ∷ rest

unfoldable pub insert_points : List ℕ → List ℕ → List ℕ
unfolding insert_point
insert_points [] points = points
insert_points (i ∷ is) points = insert_point i (insert_points is points)

unfoldable pub munge_points : Text → List Text → List ℕ
unfolding insert_points needle_points
munge_points string [] = []
munge_points string (needle ∷ needles) =
    insert_points (needle_points string needle) (munge_points string needles)

unfoldable pub zwsp_munge : Text → List Text → Munge
unfolding munge_points
zwsp_munge string needles = record {
  string = string;
  munge_points = munge_points string needles;
  pos = 0;
  munging = false;
}

-- The match of `next`. `get` yields `None` where `slice` has no result.
advance : Munge → List ℕ → Bool → Outcome (Option Text × Munge)
advance m (i ∷ points) false = done (slice m.string m.pos i, record m { munging = true })
advance m (i ∷ points) true =
    done (some zwsp, record m { munge_points = points; pos = i; munging = false })
advance m [] false = done (slice m.string m.pos (len m.string), record m { pos = len m.string })
advance m [] true = panicked

unfoldable pub next : Munge → Outcome (Option Text × Munge)
unfolding advance
next m = if leb (len m.string) m.pos then done (none, m) else advance m m.munge_points m.munging

-- `ExactSizeIterator::len`
unfoldable pub munge_len : Munge → ℕ
munge_len m = length m.munge_points * 2 + (if is_nil m.string then 0 else 1)

-- `collect`: the items until `next` has none. Two rounds for each point and two more are enough
-- (`Items.collect-items`).
unfoldable pub collect : ℕ → Munge → Outcome (List Text)
unfolding next
collect zero m = out_of_fuel
collect (suc f) m = do
  (item, m') ← next m
  on_option item (done []) λ t. (do rest ← collect f m'; done (t ∷ rest))

abbrev pub rounds : List ℕ → ℕ
rounds [] = 2
rounds (i ∷ points) = suc (suc (rounds points))

unfoldable pub collect_all : Munge → Outcome (List Text)
unfolding collect
collect_all m = collect (rounds m.munge_points) m
