-- ===== src/Util/Munge/Points.antt =====
-- The points of `zwsp_munge` cut its text into pieces.
use irc_bot_rs.Base.{
  ℕ, suc, ◌+◌, ◌-◌, ◌*◌, ◌<◌, ◌≡◌, refl, sym, ap, ◌∙◌, subst, inl, inr, false, Bool-cases, List, [],
  ◌∷◌, ◌++◌, map, append_assoc, append-nil, arith, ltb, ◌==◌, is_nil, length, drop, All,
}
use irc_bot_rs.Text.{concat, Text, char_len, len, starts_with}
use irc_bot_rs.Text.Laws.{len-append, char_len_pos, starts_with_split}
use irc_bot_rs.Core.Err.{done}
use irc_bot_rs.Util.Munge.{
  text_indices, needle_points, insert_point, insert_points, munge_points, zwsp_munge, munge_len,
  collect_all,
}
use irc_bot_rs.Util.Munge.Items.{offsets, separated, NotEmpty, collect_all-pieces}

-- A byte index at which the text can be cut, with text on both sides.
abbrev IsInside : Text → ℕ → Type 0
IsInside s i = (a b : Text) × (s ≡ a ++ b) × (len a ≡ i) × (0 < len a) × (0 < len b)

-- Increasing from a bound, which is excluded.
abbrev Increasing : ℕ → List ℕ → Type 0
Increasing i [] = Unit
Increasing i (j ∷ js) = (i < j) × Increasing j js

-- A piece of a text is found at its index.
abbrev IsAt : Text → ℕ → Text → ℕ → Type 0
IsAt p i s j = (a b : Text) × (s ≡ a ++ (p ++ b)) × (i + len a ≡ j)

IsAt-cons :
    (p : Text) (i : ℕ) (c : ℕ) (s : Text) (j : ℕ) → IsAt p (i + char_len c) s j → IsAt p i (c ∷ s) j
IsAt-cons p i c s j (a, b, e, n) = (c ∷ a, b, ap (λ x. c ∷ x) e, omega arith)

All-IsAt-cons :
    (p : Text) (i c : ℕ) (s : Text) (js : List ℕ)
    → All (IsAt p (i + char_len c) s) js
    → All (IsAt p i (c ∷ s)) js
All-IsAt-cons p i c s [] h = tt
All-IsAt-cons p i c s (j ∷ js) h = (IsAt-cons p i c s j h.0, All-IsAt-cons p i c s js h.1)

text_indices-IsAt : (p : Text) (i skip : ℕ) (s : Text) → All (IsAt p i s) (text_indices p i skip s)
unfolding text_indices
text_indices-IsAt p i skip [] = tt
text_indices-IsAt p i skip (c ∷ s) =
    let skipping = All-IsAt-cons p i c s _ (text_indices-IsAt p (i + char_len c) (skip - 1) s) in
    elim (Bool-cases (ltb 0 skip)) [
      | inl y ↦ rw y skipping
      | inr n ↦ elim (Bool-cases (starts_with (c ∷ s) p)) [
        | inr u ↦ rw (n, u) skipping
        | inl m ↦
            rw (n, m)
              (
                ([], drop (length p) (c ∷ s), starts_with_split (c ∷ s) p m, omega arith),
                All-IsAt-cons p i c s _ (text_indices-IsAt p (i + char_len c) (length p - 1) s),
              )
      ]
    ]

needle-IsInside :
    (s : Text) (c d : ℕ) (p : Text) (js : List ℕ)
    → All (IsAt (c ∷ d ∷ p) 0 s) js
    → All (IsInside s) (map (λ i. i + char_len c) js)
needle-IsInside s c d p [] h = tt
needle-IsInside s c d p (j ∷ js) ((a, b, e, n), h) = (
  (
    a ++ c ∷ [],
    d ∷ (p ++ b),
    e ∙ sym (append_assoc a (c ∷ []) (d ∷ (p ++ b))),
    omega (arith, len-append a (c ∷ [])),
    omega (arith, len-append a (c ∷ []), char_len_pos c),
    omega (arith, char_len_pos d),
  ),
  needle-IsInside s c d p js h,
)

needle_points-IsInside : (s needle : Text) → All (IsInside s) (needle_points s needle)
unfolding needle_points
needle_points-IsInside s [] = tt
needle_points-IsInside s (c ∷ []) = tt
needle_points-IsInside s (c ∷ d ∷ p) =
    needle-IsInside s c d p (text_indices (c ∷ d ∷ p) 0 0 s) (text_indices-IsAt (c ∷ d ∷ p) 0 0 s)

Increasing-insert_point :
    (b i : ℕ) (js : List ℕ) → b < i → Increasing b js → Increasing b (insert_point i js)
unfolding insert_point
Increasing-insert_point b i [] l h = (l, tt)
Increasing-insert_point b i (j ∷ js) l h = elim (Bool-cases (ltb i j)) [
  | inl y ↦ rw y (l, (ground arith, h.1))
  | inr n ↦ elim (Bool-cases (i == j)) [
    | inl y ↦ rw (n, y) h
    | inr m ↦ rw (n, m) (h.0, Increasing-insert_point j i js (ground arith) h.1)
  ]
]

insert_point-All :
    (s : Text) (i : ℕ) (js : List ℕ)
    → IsInside s i
    → All (IsInside s) js
    → All (IsInside s) (insert_point i js)
unfolding insert_point
insert_point-All s i [] p h = (p, tt)
insert_point-All s i (j ∷ js) p h = elim (Bool-cases (ltb i j)) [
  | inl y ↦ rw y (p, h)
  | inr n ↦ elim (Bool-cases (i == j)) [
    | inl y ↦ rw (n, y) h
    | inr m ↦ rw (n, m) (h.0, insert_point-All s i js p h.1)
  ]
]

abbrev GoodPoints : Text → List ℕ → Type 0
GoodPoints s js = Increasing 0 js × All (IsInside s) js

insert_points-GoodPoints :
    (s : Text) (is js : List ℕ)
    → All (IsInside s) is
    → GoodPoints s js
    → GoodPoints s (insert_points is js)
unfolding insert_points
insert_points-GoodPoints s [] js h g = g
insert_points-GoodPoints s (i ∷ is) js h g =
    let (inc, inside) = insert_points-GoodPoints s is js h.1 g in
    let (a, b, e, n, p, q) = h.0 in
    (
      Increasing-insert_point 0 i (insert_points is js) (omega arith) inc,
      insert_point-All s i (insert_points is js) h.0 inside,
    )

pub munge_points-GoodPoints :
    (s : Text) (needles : List Text) → GoodPoints s (munge_points s needles)
unfolding munge_points
munge_points-GoodPoints s [] = (tt, tt)
munge_points-GoodPoints s (needle ∷ needles) =
    insert_points-GoodPoints s (needle_points s needle) (munge_points s needles)
      (needle_points-IsInside s needle) (munge_points-GoodPoints s needles)

prefix_split :
    (pre rest a b : Text)
    → pre ++ rest ≡ a ++ b
    → len pre < len a
    → (first : Text) × (a ≡ pre ++ first) × (rest ≡ first ++ b) × NotEmpty first
prefix_split [] rest a b e l = (a, refl, e, omega arith)
prefix_split (c ∷ pre) rest [] b e l = absurd (omega arith)
prefix_split (c ∷ pre) rest (d ∷ a) b e l =
    let same : c ≡ d = cc in
    let l' : len pre < len a = ground (arith, ap char_len same) in
    let (first, ea, er, p) = prefix_split pre rest a b (cc) l' in (first, cc, er, p)

pub cut :
    (pre rest : Text) (js : List ℕ)
    → NotEmpty rest
    → Increasing (len pre) js
    → All (IsInside (pre ++ rest)) js
    → (first : Text) × (ts : List Text) × (rest ≡ first ++ concat ts)
      × (js ≡ offsets (len pre + len first) ts)
      × NotEmpty first
      × All NotEmpty ts
cut pre rest [] p inc h = (rest, [], sym (append-nil rest), refl, p, tt)
cut pre rest (j ∷ js) p inc h =
    let (a, b, e, n, pa, pb) = h.0 in
    let (first, ea, er, pf) = prefix_split pre rest a b e (omega (arith, inc.0)) in
    let at_j : len (pre ++ first) ≡ j = ap len (sym ea) ∙ n in
    let whole : pre ++ rest ≡ (pre ++ first) ++ b = e ∙ ap (λ x. x ++ b) ea in
    let (first', ts, e', o, pf', pt) =
      cut (pre ++ first) b js pb (subst (λ i. Increasing i js) (sym at_j) inc.1)
        (subst (λ s. All (IsInside s) js) whole h.1) in
    (
      first,
      first' ∷ ts,
      er ∙ ap (λ x. first ++ x) e',
      ap (λ i. i ∷ js) (sym at_j)
          ∙ ap (λ x. len (pre ++ first) ∷ x) o
          ∙ ap (λ i. i ∷ offsets (i + len first') ts) (len-append pre first),
      pf,
      (pf', pt),
    )

pub length-offsets : (i : ℕ) (ts : List Text) → length (offsets i ts) ≡ length ts
length-offsets i [] = refl
length-offsets i (t ∷ ts) = ap (λ n. suc n) (length-offsets (i + len t) ts)

length-separated : (ts : List Text) → length (separated ts) ≡ length ts * 2
length-separated [] = refl
length-separated (t ∷ ts) = omega (arith, length-separated ts)

not_nil : (s : Text) → NotEmpty s → is_nil s ≡ false
not_nil [] h = absurd (omega arith)
not_nil (c ∷ s) h = refl

-- For a text that is not empty, whatever the needles, the iterator ends, and yields pieces of the
-- text that together are the text, with a separator between each two; the length that it announces
-- at the start is the number of items.
pub zwsp_munge-pieces :
    (string : Text) (needles : List Text)
    → NotEmpty string
    → (first : Text) × (rest : List Text) × (string ≡ concat (first ∷ rest))
      × (collect_all (zwsp_munge string needles) ≡ done (first ∷ separated rest))
      × (munge_len (zwsp_munge string needles) ≡ length (first ∷ separated rest))
unfolding zwsp_munge munge_len
zwsp_munge-pieces string needles p =
    let (inc, inside) = munge_points-GoodPoints string needles in
    let (first, rest, e, o, pf, pr) = cut [] string (munge_points string needles) p inc inside in
    let o' : munge_points string needles ≡ offsets (len first) rest =
      o ∙ ap (λ i. offsets i rest) (omega arith) in
    (
      first,
      rest,
      e,
      rw (o', e) (collect_all-pieces first rest pf pr),
      rw (o', length-offsets (len first) rest, not_nil string p, length-separated rest)
          (omega arith),
    )
