-- ===== src/Quote/Render/Laws.antt =====
-- What is rendered of a quotation.
use irc_bot_rs.Base.{
  ℕ, ◌+◌, ◌≡◌, refl, ap, ◌∙◌, Bool, true, false, not, ◌&&◌, ◌==◌, Option, List, [], ◌∷◌, ◌++◌,
  append-nil, arith, if◌then◌else◌, length, unwrap_or,
}
use irc_bot_rs.Text.{Text, codes, len, lines, join, concat}
use irc_bot_rs.Text.Laws.{len-append}
use irc_bot_rs.Core.Err.{done}
use irc_bot_rs.Quote.{
  Quotation, QuotationFormat, chat, plain, QuoteParams, AntiPingTactic, munge, eschew, no_tactic,
  by_format, chat_lines_stripped, quotation_text_contains_any,
}
use irc_bot_rs.Quote.Id.{print_id}
use irc_bot_rs.Quote.Length.{posted_text, quotation_byte_len-posted}
use irc_bot_rs.Quote.Pick.{is_eschew}
use irc_bot_rs.Quote.Render.{
  intersperse, apply_tactic, render_quotation, rendered_quotation_byte_len,
}
use irc_bot_rs.Quote.Render.Munging.{
  concat-intersperse, without_zwsp, without_zwsp-append, munge_all, munge_all_for_none,
}

-- The texts of a quotation that the tactics are applied to.
abbrev texts : (Text → Option ℕ) → Quotation → List Text
texts find_metadata q =
    by_format q.format (intersperse (codes " ") (chat_lines_stripped find_metadata q)) (q.text ∷ [])

-- How the line is decorated.
abbrev pub with_id : Bool → ℕ → Text → Text
with_id abridged id text =
    (if abridged then codes "{" else codes "[")
    ++ (print_id id ++ ((if abridged then codes "}" else codes "]") ++ (codes " " ++ text)))

abbrev pub is_abridged : (Text → Option ℕ) → Quotation → Bool
is_abridged find_metadata q =
    by_format q.format (not (length (chat_lines_stripped find_metadata q) == length (lines q.text)))
      false

concat-texts :
    (find_metadata : Text → Option ℕ) (q : Quotation)
    → concat (texts find_metadata q) ≡ posted_text find_metadata q
concat-texts find_metadata q = by_cases q.format
  where
    by_cases :
        (f : QuotationFormat)
        → concat (
            by_format f
              (intersperse (codes " ") (chat_lines_stripped find_metadata q))
              (q.text ∷ []))
          ≡ by_format f (join (codes " ") (chat_lines_stripped find_metadata q)) q.text
    by_cases chat = concat-intersperse (codes " ") (chat_lines_stripped find_metadata q)
    by_cases plain = append-nil q.text

-- The rendering of a quotation in which nothing is munged.
abbrev pub plain_rendering : (Text → Option ℕ) → Quotation → Text
plain_rendering find_metadata q =
    with_id (is_abridged find_metadata q) q.id (posted_text find_metadata q)

module _ (find_metadata : Text → Option ℕ) (debug_assertions : Bool) (params : QuoteParams)
    (q : Quotation) where
  no_nick : quotation_text_contains_any find_metadata q [] ≡ false
  unfolding quotation_text_contains_any
  no_nick = by_cases q.format
    where
      by_cases : (f : QuotationFormat) → by_format f false false ≡ false
      by_cases chat = refl
      by_cases plain = refl

  apply_for_none :
      (t : AntiPingTactic) (ss : List Text)
      → (pieces : List Text) × (apply_tactic find_metadata debug_assertions t q [] ss ≡ done pieces)
        × (concat pieces ≡ concat ss)
  unfolding apply_tactic
  apply_for_none munge ss = munge_all_for_none ss
  apply_for_none eschew ss = (ss, rw no_nick (ground arith), refl)
  apply_for_none no_tactic ss = (ss, refl, refl)

  -- Where the bot sees no user in the channel, a quotation is rendered, whatever the tactic, as its
  -- identifier in brackets, a space, and its text.
  render_for_none :
      render_quotation find_metadata debug_assertions params q []
      ≡ done (plain_rendering find_metadata q)
  unfolding render_quotation
  render_for_none =
      let (pieces, e, same) =
        apply_for_none (unwrap_or params.anti_ping_tactic q.anti_ping_tactic)
          (texts find_metadata q) in
      rw (e, same, concat-texts find_metadata q) refl

  len-with_id :
      (abridged : Bool) (id : ℕ) (text : Text)
      → len (with_id abridged id text) ≡ len text + (3 + len (print_id id))
  len-with_id true id text = omega (arith, len-append (print_id id) (codes "} " ++ text))
  len-with_id false id text = omega (arith, len-append (print_id id) (codes "] " ++ text))

  -- Where the bot sees no user in the channel, a quotation is rendered, whatever the tactic, and its
  -- length is exactly the bound that is computed for it.
  render_quotation-len :
      (text : Text) × (render_quotation find_metadata debug_assertions params q [] ≡ done text)
      × (len text ≡ rendered_quotation_byte_len find_metadata q)
  unfolding rendered_quotation_byte_len
  render_quotation-len = (
    with_id (is_abridged find_metadata q) q.id (posted_text find_metadata q),
    render_for_none,
    rw (quotation_byte_len-posted find_metadata q)
        (len-with_id (is_abridged find_metadata q) q.id (posted_text find_metadata q)),
  )

  without_zwsp-with_id :
      (abridged : Bool) (id : ℕ) (s t : Text)
      → without_zwsp s ≡ without_zwsp t
      → without_zwsp (with_id abridged id s) ≡ without_zwsp (with_id abridged id t)
  without_zwsp-with_id true id s t h =
      rw
        (
          without_zwsp-append (print_id id) (codes "} " ++ s),
          without_zwsp-append (print_id id) (codes "} " ++ t),
          h,
        )
        refl
  without_zwsp-with_id false id s t h =
      rw
        (
          without_zwsp-append (print_id id) (codes "] " ++ s),
          without_zwsp-append (print_id id) (codes "] " ++ t),
          h,
        )
        refl

  apply_for_users :
      (t : AntiPingTactic) (nicks ss : List Text)
      → is_eschew t && quotation_text_contains_any find_metadata q nicks ≡ false
      → (pieces : List Text) × (apply_tactic find_metadata debug_assertions t q nicks ss
          ≡ done pieces)
        × (without_zwsp (concat pieces) ≡ without_zwsp (concat ss))
  unfolding apply_tactic
  apply_for_users munge nicks ss h = munge_all nicks ss
  apply_for_users eschew nicks ss h =
      let absent : quotation_text_contains_any find_metadata q nicks ≡ false = ground arith in
      (ss, rw absent (ground arith), refl)
  apply_for_users no_tactic nicks ss h = (ss, refl, refl)

  -- Unless the nickname of a user is to be eschewed and appears in the quotation, the quotation is
  -- rendered, whoever is in the channel, and the text is the same but for zero-width spaces as the
  -- rendering in which nothing is munged, whose length is exactly the bound that is computed for it.
  pub render_quotation_for_users :
      (nicks : List Text)
      → is_eschew (unwrap_or params.anti_ping_tactic q.anti_ping_tactic)
          && quotation_text_contains_any find_metadata q nicks
        ≡ false
      → (text : Text) × (render_quotation find_metadata debug_assertions params q nicks ≡ done text)
        × (without_zwsp text ≡ without_zwsp (plain_rendering find_metadata q))
        × (len (plain_rendering find_metadata q) ≡ rendered_quotation_byte_len find_metadata q)
  unfolding render_quotation rendered_quotation_byte_len
  render_quotation_for_users nicks h =
      let (pieces, e, same) =
        apply_for_users (unwrap_or params.anti_ping_tactic q.anti_ping_tactic) nicks
          (texts find_metadata q) h in
      (
        with_id (is_abridged find_metadata q) q.id (concat pieces),
        rw e refl,
        without_zwsp-with_id (is_abridged find_metadata q) q.id (concat pieces)
            (posted_text find_metadata q)
            (same ∙ ap (λ x. without_zwsp x) (concat-texts find_metadata q)),
        rw (quotation_byte_len-posted find_metadata q)
            (len-with_id (is_abridged find_metadata q) q.id (posted_text find_metadata q)),
      )
