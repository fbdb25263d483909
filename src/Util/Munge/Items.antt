-- ===== src/Util/Munge/Items.antt =====
-- What the iterator yields for points that cut the text into pieces.
use irc_bot_rs.Base.{
  ℕ, ◌+◌, ◌<◌, ◌≡◌, refl, ap, ◌∙◌, subst, true, false, none, some, List, [], ◌∷◌, ◌++◌,
  append_assoc, append-nil, arith, leb, All,
}
use irc_bot_rs.Text.{concat, Text, len, slice}
use irc_bot_rs.Text.Laws.{len-append}
use irc_bot_rs.Text.Slices.{slice-append}
use irc_bot_rs.Core.Err.{done}
use irc_bot_rs.Util.Munge.{Munge, collect_all, zwsp, next, advance, collect, rounds}

-- Where each piece begins, from the given index on.
abbrev pub offsets : ℕ → List Text → List ℕ
offsets i [] = []
offsets i (t ∷ ts) = i ∷ offsets (i + len t) ts

-- The pieces, with a separator before each.
abbrev pub separated : List Text → List Text
separated [] = []
separated (t ∷ ts) = zwsp ∷ t ∷ separated ts

abbrev pub NotEmpty : Text → Type 0
NotEmpty t = 0 < len t

-- The iterator at the beginning of a piece.
abbrev at_piece : Text → Text → List Text → Munge
at_piece pre first rest = record {
  string = pre ++ (first ++ concat rest);
  munge_points = offsets (len pre + len first) rest;
  pos = len pre;
  munging = false;
}

more_text :
    (pre first : Text) (rest : List Text)
    → NotEmpty first
    → leb (len (pre ++ (first ++ concat rest))) (len pre) ≡ false
more_text pre first rest p =
    ground (arith, len-append pre (first ++ concat rest), len-append first (concat rest))

last_slice :
    (pre first : Text)
    → slice (pre ++ (first ++ [])) (len pre) (len (pre ++ (first ++ []))) ≡ some first
last_slice pre first =
    let e : len (pre ++ (first ++ [])) ≡ len pre + len first =
      len-append pre (first ++ []) ∙ ap (λ t. len pre + len t) (append-nil first) in
    rw e (slice-append pre first [])

ended :
    (m : Munge)
    → next (record m { pos = len m.string }) ≡ done (none, record m { pos = len m.string })
unfolding next
ended m = let e : leb (len m.string) (len m.string) ≡ true = ground arith in rw e refl

last_piece :
    (pre first : Text)
    → NotEmpty first
    → next (at_piece pre first [])
      ≡ done (some first, record (at_piece pre first []) { pos = len (pre ++ (first ++ [])) })
unfolding next advance
last_piece pre first p = rw (more_text pre first [] p, last_slice pre first) refl

inner_piece :
    (pre first t : Text) (rest : List Text)
    → NotEmpty first
    → next (at_piece pre first (t ∷ rest))
      ≡ done (some first, record (at_piece pre first (t ∷ rest)) { munging = true })
unfolding next advance
inner_piece pre first t rest p =
    rw (more_text pre first (t ∷ rest) p, slice-append pre first (t ++ concat rest)) refl

separator :
    (pre first t : Text) (rest : List Text)
    → NotEmpty first
    → next (record (at_piece pre first (t ∷ rest)) { munging = true })
      ≡ done (
        some zwsp,
        record {
          string = pre ++ (first ++ (t ++ concat rest));
          munge_points = offsets (len pre + len first + len t) rest;
          pos = len pre + len first;
          munging = false;
        },
      )
unfolding next advance
separator pre first t rest p = rw (more_text pre first (t ∷ rest) p) refl

collect-pieces :
    (pre first : Text) (rest : List Text)
    → NotEmpty first
    → All NotEmpty rest
    → collect (rounds (offsets (len pre + len first) rest)) (at_piece pre first rest)
      ≡ done (first ∷ separated rest)
unfolding collect
collect-pieces pre first [] p q = rw (last_piece pre first p, ended (at_piece pre first [])) refl
collect-pieces pre first (t ∷ rest) p q =
    let later =
      rw (append_assoc pre first (t ++ concat rest), len-append pre first) at
        (collect-pieces (pre ++ first) t rest q.0 q.1) in
    rw (inner_piece pre first t rest p, separator pre first t rest p, later) refl

-- Points that cut the text into pieces that are not empty: the iterator yields the pieces, with a
-- separator between each two.
pub collect_all-pieces :
    (first : Text) (rest : List Text)
    → NotEmpty first
    → All NotEmpty rest
    → collect_all (record {
      string = first ++ concat rest;
      munge_points = offsets (len first) rest;
      pos = 0;
      munging = false;
    })
      ≡ done (first ∷ separated rest)
unfolding collect_all
collect_all-pieces first rest p q =
    let e : 0 + len first ≡ len first = omega arith in
    subst
      (λ i.
        collect (rounds (offsets i rest)) (record {
          string = first ++ concat rest;
          munge_points = offsets i rest;
          pos = 0;
          munging = false;
        })
        ≡ done (first ∷ separated rest))
      e (collect-pieces [] first rest p q)
