-- ===== src/Quote/Render/Munging.antt =====
-- What munging the nicknames of users does to the texts of a quotation.
use irc_bot_rs.Base.{
  ℕ, ◌≡◌, refl, sym, ap, ◌∙◌, subst, inl, inr, false, ◌==◌, Bool-cases, List, [], ◌∷◌, ◌++◌,
  append_assoc, append-nil, arith, if◌then◌else◌,
}
use irc_bot_rs.Text.{Text, join, concat}
use irc_bot_rs.Text.Laws.{char_len_pos}
use irc_bot_rs.Core.Err.{done}
use irc_bot_rs.Util.Munge.{zwsp_munge, munge_points, collect_all}
use irc_bot_rs.Util.Munge.Items.{separated, collect_all-pieces}
use irc_bot_rs.Util.Munge.Points.{zwsp_munge-pieces}
use irc_bot_rs.Quote.Render.{intersperse, munge_user_nicks}

pub concat-append : (ss ts : List Text) → concat (ss ++ ts) ≡ concat ss ++ concat ts
concat-append [] ts = refl
concat-append (s ∷ ss) ts = rw (concat-append ss ts) (sym (append_assoc s (concat ss) (concat ts)))

pub concat-intersperse : (sep : Text) (ss : List Text) → concat (intersperse sep ss) ≡ join sep ss
unfolding join
concat-intersperse sep [] = refl
concat-intersperse sep (s ∷ []) = append-nil s
concat-intersperse sep (s ∷ t ∷ r) = rw (concat-intersperse sep (t ∷ r)) refl

-- A text without its zero-width spaces.
abbrev pub without_zwsp : Text → Text
without_zwsp [] = []
without_zwsp (c ∷ s) = let rest = without_zwsp s in if c == 0x200B then rest else c ∷ rest

pub without_zwsp-append : (s t : Text) → without_zwsp (s ++ t) ≡ without_zwsp s ++ without_zwsp t
without_zwsp-append [] t = refl
without_zwsp-append (c ∷ s) t = elim (Bool-cases (c == 0x200B)) [
  | inl y ↦ rw (y, without_zwsp-append s t) refl
  | inr n ↦ rw (n, without_zwsp-append s t) refl
]

without_zwsp-separated :
    (ts : List Text) → without_zwsp (concat (separated ts)) ≡ without_zwsp (concat ts)
without_zwsp-separated [] = refl
without_zwsp-separated (t ∷ ts) =
    without_zwsp-append t (concat (separated ts))
    ∙ ap (λ x. without_zwsp t ++ x) (without_zwsp-separated ts)
    ∙ sym (without_zwsp-append t (concat ts))

nothing_to_munge :
    (points : List ℕ)
    → collect_all (record { string = []; munge_points = points; pos = 0; munging = false })
      ≡ done []
unfolding collect_all
nothing_to_munge [] = refl
nothing_to_munge (i ∷ points) = refl

-- Munging one text.
munge_one :
    (s : Text) (nicks : List Text)
    → (items : List Text) × (collect_all (zwsp_munge s nicks) ≡ done items)
      × (without_zwsp (concat items) ≡ without_zwsp s)
unfolding zwsp_munge
munge_one [] nicks = ([], nothing_to_munge (munge_points [] nicks), refl)
munge_one (c ∷ s) nicks =
    let (first, rest, e, items, n) =
      zwsp_munge-pieces (c ∷ s) nicks (omega (arith, char_len_pos c)) in
    (
      first ∷ separated rest,
      items,
      without_zwsp-append first (concat (separated rest))
          ∙ ap (λ x. without_zwsp first ++ x) (without_zwsp-separated rest)
          ∙ sym (without_zwsp-append first (concat rest))
          ∙ ap (λ x. without_zwsp x) (sym e),
    )

munge_for_none :
    (s : Text)
    → (items : List Text) × (collect_all (zwsp_munge s []) ≡ done items) × (concat items ≡ s)
unfolding zwsp_munge munge_points
munge_for_none [] = ([], nothing_to_munge [], refl)
munge_for_none (c ∷ s) = (
  (c ∷ s) ∷ [],
  subst
      (λ x.
        collect_all (record { string = x; munge_points = []; pos = 0; munging = false })
        ≡ done ((c ∷ s) ∷ []))
      (append-nil (c ∷ s)) (collect_all-pieces (c ∷ s) [] (omega (arith, char_len_pos c)) tt),
  append-nil (c ∷ s),
)

pub munge_all :
    (nicks ss : List Text)
    → (pieces : List Text) × (munge_user_nicks nicks ss ≡ done pieces)
      × (without_zwsp (concat pieces) ≡ without_zwsp (concat ss))
unfolding munge_user_nicks
munge_all nicks [] = ([], refl, refl)
munge_all nicks (s ∷ ss) =
    let (items, e, same) = munge_one s nicks in
    let (rest, f, same_rest) = munge_all nicks ss in
    (
      items ++ rest,
      rw (e, f) refl,
      ap (λ x. without_zwsp x) (concat-append items rest)
          ∙ without_zwsp-append (concat items) (concat rest)
          ∙ rw (same, same_rest) (sym (without_zwsp-append s (concat ss))),
    )

pub munge_all_for_none :
    (ss : List Text)
    → (pieces : List Text) × (munge_user_nicks [] ss ≡ done pieces) × (concat pieces ≡ concat ss)
unfolding munge_user_nicks
munge_all_for_none [] = ([], refl, refl)
munge_all_for_none (s ∷ ss) =
    let (items, e, same) = munge_for_none s in
    let (rest, f, same_rest) = munge_all_for_none ss in
    (items ++ rest, rw (e, f) refl, concat-append items rest ∙ rw (same, same_rest) refl)
