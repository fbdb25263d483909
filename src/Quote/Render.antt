-- ===== src/Quote/Render.antt =====
-- The rendering of a quotation, with the tactics against pings.
pub mod Laws
pub mod Munging
use irc_bot_rs.Base.{
  ℕ, ◌+◌, Bool, true, false, not, ◌&&◌, ◌==◌, Option, List, [], ◌∷◌, ◌++◌, if◌then◌else◌, length,
  unwrap_or,
}
use irc_bot_rs.Text.{Text, codes, concat, len, lines}
use irc_bot_rs.Core.Err.{Outcome, done, panicked, ◌>>=◌}
use irc_bot_rs.Util.Munge.{zwsp_munge, collect_all}
use irc_bot_rs.Quote.{
  Quotation, QuoteParams, AntiPingTactic, munge, eschew, no_tactic, by_format, chat_lines_stripped,
  quotation_byte_len, quotation_text_contains_any,
}
use irc_bot_rs.Quote.Id.{print_id}

-- `Itertools::intersperse`
abbrev pub intersperse : Text → List Text → List Text
intersperse sep [] = []
intersperse sep (s ∷ []) = s ∷ []
intersperse sep (s ∷ t ∷ r) = s ∷ sep ∷ intersperse sep (t ∷ r)

-- `flat_map` with `munge_user_nicks`, by the nicknames of the users.
unfoldable pub munge_user_nicks : List Text → List Text → Outcome (List Text)
munge_user_nicks nicks [] = done []
munge_user_nicks nicks (s ∷ ss) = do
  pieces ← collect_all (zwsp_munge s nicks)
  rest ← munge_user_nicks nicks ss
  done (pieces ++ rest)

-- `debug_assertions` says whether the profile checks debug assertions.
module _ (find_metadata : Text → Option ℕ) (debug_assertions : Bool) where
  unfoldable pub apply_tactic :
      AntiPingTactic → Quotation → List Text → List Text → Outcome (List Text)
  unfolding munge_user_nicks
  apply_tactic munge q nicks texts = munge_user_nicks nicks texts
  apply_tactic eschew q nicks texts =
      if debug_assertions && quotation_text_contains_any find_metadata q nicks
      then panicked
      else done texts
  apply_tactic no_tactic q nicks texts = done texts

  -- The pieces that the callback is called with, in order, and whether the text was abridged.
  unfoldable pub for_each_quotation_text_piece :
      QuoteParams → Quotation → List Text → Outcome (List Text × Bool)
  unfolding apply_tactic
  for_each_quotation_text_piece params q nicks = do
    pieces ← apply_tactic (unwrap_or params.anti_ping_tactic q.anti_ping_tactic) q nicks (
        by_format q.format (intersperse (codes " ") (chat_lines_stripped find_metadata q))
          (q.text ∷ []))
    done (
      pieces,
      by_format q.format
          (not (length (chat_lines_stripped find_metadata q) == length (lines q.text))) false,
    )

  unfoldable pub render_quotation : QuoteParams → Quotation → List Text → Outcome Text
  unfolding for_each_quotation_text_piece
  render_quotation params q nicks = do
    (pieces, abridged) ← for_each_quotation_text_piece params q nicks
    done (
        (if abridged then codes "{" else codes "[")
        ++ (print_id q.id
            ++ ((if abridged then codes "}" else codes "]") ++ (codes " " ++ concat pieces))))

-- An upper bound where nothing is munged.
unfoldable pub rendered_quotation_byte_len : (Text → Option ℕ) → Quotation → ℕ
rendered_quotation_byte_len find_metadata q =
    quotation_byte_len find_metadata q + (3 + len (print_id q.id))
