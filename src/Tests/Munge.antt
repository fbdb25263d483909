-- ===== src/Tests/Munge.antt =====
-- The munging of a text with one needle.
use irc_bot_rs.Base.{◌≡◌, refl, true, false, List, [], ◌∷◌, arith, length}
use irc_bot_rs.Text.{concat, Text, codes, len}
use irc_bot_rs.Core.Err.{done}
use irc_bot_rs.Util.Munge.{Munge, zwsp_munge, collect_all, munge_len}
use irc_bot_rs.Util.Munge.Items.{separated}
use irc_bot_rs.Util.Munge.Points.{zwsp_munge-pieces}

zwsp_munge-pieces_example :
    (first : Text) × (rest : List Text) × (codes "lorem ipsum" ≡ concat (first ∷ rest))
    × (collect_all (zwsp_munge (codes "lorem ipsum") (codes "psu" ∷ []))
        ≡ done (first ∷ separated rest))
    × (munge_len (zwsp_munge (codes "lorem ipsum") (codes "psu" ∷ []))
        ≡ length (first ∷ separated rest))
zwsp_munge-pieces_example = zwsp_munge-pieces (codes "lorem ipsum") (codes "psu" ∷ []) (omega arith)

-- The same text and needle, run: the example of the code's own test.
lorem :
    collect_all (zwsp_munge (codes "lorem ipsum") (codes "quux" ∷ codes "psu" ∷ []))
    ≡ done (codes "lorem ip" ∷ (0x200B ∷ []) ∷ codes "sum" ∷ [])
unfolding collect_all zwsp_munge irc_bot_rs.Text.slice
lorem = refl

abbrev before : Munge
before = record { string = codes "abcd"; munge_points = 2 ∷ []; pos = 0; munging = false }

abbrev after : Munge
after = record { string = codes "abcd"; munge_points = 2 ∷ []; pos = 0; munging = true }
