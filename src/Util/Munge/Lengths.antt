-- ===== src/Util/Munge/Lengths.antt =====
-- The lengths of the iterator `Munge` and of its pieces (src/util/mod.rs).
use irc_bot_rs.Base.{
  ℕ, ◌+◌, ◌*◌, ◌≡◌, refl, sym, ap, ◌∙◌, subst, inl, inr, false, Bool-cases, some, List, [], ◌∷◌,
  arith, leb, length,
}
use irc_bot_rs.Text.{concat, Text, len}
use irc_bot_rs.Text.Laws.{len-append}
use irc_bot_rs.Core.Err.{done, done-injective}
use irc_bot_rs.Util.Munge.{Munge, next, advance, munge_points, zwsp_munge, munge_len, collect_all}
use irc_bot_rs.Util.Munge.Items.{offsets, separated, NotEmpty, collect_all-pieces}
use irc_bot_rs.Util.Munge.Points.{cut, length-offsets, munge_points-GoodPoints}

len-separated : (ts : List Text) → len (concat (separated ts)) ≡ len (concat ts) + 3 * length ts
len-separated [] = refl
len-separated (t ∷ ts) =
    omega (arith, len-separated ts, len-append t (concat (separated ts)), len-append t (concat ts))

-- Munging makes a text that is not empty longer by three bytes for each point.
zwsp_munge-len :
    (string : Text) (needles : List Text)
    → NotEmpty string
    → (items : List Text) × (collect_all (zwsp_munge string needles) ≡ done items)
      × (len (concat items) ≡ len string + 3 * length (munge_points string needles))
unfolding zwsp_munge
zwsp_munge-len string needles p =
    let (inc, inside) = munge_points-GoodPoints string needles in
    let (first, rest, e, o, pf, pr) = cut [] string (munge_points string needles) p inc inside in
    let o' : munge_points string needles ≡ offsets (len first) rest =
      o ∙ ap (λ i. offsets i rest) (omega arith) in
    let points : length (munge_points string needles) ≡ length rest =
      ap (λ js. length js) o' ∙ length-offsets (len first) rest in
    (
      first ∷ separated rest,
      rw (o', e) (collect_all-pieces first rest pf pr),
      omega (
        arith,
        points,
        ap len e,
        len-append first (concat rest),
        len-append first (concat (separated rest)),
        len-separated rest,
      ),
    )

yields_piece :
    (m m' : Munge) (t : Text) (points : List ℕ)
    → advance m points false ≡ done (some t, m')
    → munge_len m' ≡ munge_len m
unfolding munge_len advance
yields_piece m m' t [] h = ap (λ x. munge_len x.1) (sym (done-injective h))
yields_piece m m' t (i ∷ points) h = ap (λ x. munge_len x.1) (sym (done-injective h))

-- The length that the iterator announces does not go down when it yields a piece: it is exact only
-- before the first item.
munge_len-next :
    (m m' : Munge) (t : Text)
    → m.munging ≡ false
    → next m ≡ done (some t, m')
    → munge_len m' ≡ munge_len m
unfolding next
munge_len-next m m' t f h = elim (Bool-cases (leb (len m.string) m.pos)) [
  | inl y ↦ cc (rw y at h)
  | inr n ↦
      yields_piece m m' t m.munge_points
        (subst (λ b. advance m m.munge_points b ≡ done (some t, m')) f (rw n at h))
]
