-- ===== src/Quote/Handlers/Reply.antt =====
-- What the command `quote` replies.
use irc_bot_rs.Base.{
  ℕ, ◌≤◌, ◌<◌, ◌≡◌, refl, sym, ap, ◌∙◌, subst, inl, inr, ◌⊎◌, some, Bool, false, ◌&&◌, List, Occurs,
  unwrap_or, arith,
}
use irc_bot_rs.Text.{Text, len}
use irc_bot_rs.Util.Yaml.{Yaml}
use irc_bot_rs.Core.Err.{done}
use irc_bot_rs.Core.Handler.{
  HandlerContext, Attempt, got, lift, lift-got, context_reply_dest, >>=-eq-got,
}
use irc_bot_rs.Core.Irc.{MsgDest}
use irc_bot_rs.Core.Reaction.{Reaction}
use irc_bot_rs.Core.Reply.{privmsg_content_max_len}
use irc_bot_rs.Core.State.{Lock, aatxe_client}
use irc_bot_rs.Quote.{
  Quotation, QuoteParams, QuotationDatabase, check_file_permissions, quotation_text_contains_any,
}
use irc_bot_rs.Quote.Database.{read_qdb}
use irc_bot_rs.Quote.Handlers.{url_text, channel_users, output_text, quote}
use irc_bot_rs.Quote.Params.{prepare_quote_params}
use irc_bot_rs.Quote.Pick.{
  is_eschew, QuotationChoice, text, url, QuoteEnv, candidates, pick_quotation,
}
use irc_bot_rs.Quote.Pick.Choice.{IsFair, IsVisible, IsShownAs, pick_quotation-IsShownAs}
use irc_bot_rs.Quote.Render.{rendered_quotation_byte_len}
use irc_bot_rs.Quote.Render.Munging.{without_zwsp}
use irc_bot_rs.Quote.Render.Laws.{plain_rendering, render_quotation_for_users}

got-injective : {A : Type 0} {a b : A} → ◌≡◌ {A = Attempt A} (got a) (got b) → a ≡ b
got-injective h = cc

module _ (q_env : QuoteEnv) (ctx : HandlerContext) (lock : Lock QuotationDatabase)
    (arg : Yaml) where
  -- The reply shows the quotation: as its text, which is the plain rendering but for zero-width spaces,
  -- where a message has room for that and it has no nick that is to be eschewed, or as its URL, where
  -- there is no room.
  abbrev pub Shows : QuoteParams → List Text → ℕ → Quotation → Reaction → Type 0
  Shows params nicks max_len q r =
      ((t : Text) × (r ≡ Reaction.msg t)
        × (without_zwsp t ≡ without_zwsp (plain_rendering q_env.find_metadata q))
        × (len (plain_rendering q_env.find_metadata q) ≤ max_len)
        × (is_eschew (unwrap_or params.anti_ping_tactic q.anti_ping_tactic)
              && quotation_text_contains_any q_env.find_metadata q nicks
            ≡ false))
      ⊎ ((u : Text) × (q.url ≡ some u)
          × (r ≡ Reaction.msg (url_text q.id u))
          × (max_len < rendered_quotation_byte_len q_env.find_metadata q))

  shown :
      (params : QuoteParams) (nicks : List Text) (permissions : List Bool) (max_len : ℕ)
      (q : Quotation) (c : QuotationChoice) (t : Text)
      → IsShownAs q_env params nicks permissions max_len q c
      → output_text q_env params nicks c ≡ got t
      → Shows params nicks max_len q (Reaction.msg t)
  unfolding output_text
  shown params nicks permissions max_len q (text q') t (e, fits, n) h =
      let (t', r, same, l) =
        render_quotation_for_users q_env.find_metadata q_env.debug_assertions params q nicks n in
      let chosen : output_text q_env params nicks (text q) ≡ got t =
        subst (λ x. output_text q_env params nicks (text x) ≡ got t) e h in
      let t_eq : t' ≡ t = got-injective (sym (ap (λ m. lift m) r) ∙ chosen) in
      inl (t, refl, ap (λ x. without_zwsp x) (sym t_eq) ∙ same, omega (arith, l, fits), n)
  shown params nicks permissions max_len q (url id u) t (e, long, f) h =
      let same : url_text id u ≡ t = cc in
      inr (u, f, ap (λ x. Reaction.msg x) (sym same ∙ ap (λ i. url_text i u) e), long)

  -- The reply shows a quotation that was asked for, that matches the query, and that is in a file that
  -- may be seen where the reply goes.
  abbrev pub ShowsOneAskedFor : Reaction → Type 0
  ShowsOneAskedFor r =
      (params : QuoteParams) × (dest : MsgDest) × (qdb : QuotationDatabase) × (client : ℕ)
      × (max_len : ℕ) × (qs : List Quotation) × (q : Quotation) × (prepare_quote_params q_env ctx
            arg
          ≡ got params)
      × (context_reply_dest q_env.env ctx ≡ done dest)
      × (read_qdb lock ≡ done qdb)
      × (aatxe_client ctx.state dest.server_id ≡ done client)
      × (privmsg_content_max_len q_env.env ctx.state dest ≡ done max_len)
      × (candidates q_env params qdb ≡ got qs)
      × Occurs q qs
      × IsVisible q_env params (channel_users q_env client dest.target)
          (check_file_permissions q_env.env.regex qdb.files dest.target) max_len q
      × Shows params (channel_users q_env client dest.target) max_len q r

  -- If `rand_iter` yields the elements of its list, a reply of the command `quote` shows a quotation
  -- that was asked for, matches the query, and is in a file that may be seen where the reply goes. It
  -- is posted as its text, changed in nothing but zero-width spaces, only if one message has room there
  -- for the text without those and no nick of a user that the bot sees there is to be eschewed and
  -- appears in it, and by its URL only if there is no room.
  pub quote-Shows :
      (r : Reaction) → IsFair q_env → quote q_env ctx lock arg ≡ got r → ShowsOneAskedFor r
  unfolding quote
  quote-Shows r fair h =
      let (params, p, h1) = >>=-eq-got (prepare_quote_params q_env ctx arg) _ h in
      let (dest, d, h2) = >>=-eq-got (lift (context_reply_dest q_env.env ctx)) _ h1 in
      let (qdb, b, h3) = >>=-eq-got (lift (read_qdb lock)) _ h2 in
      let (client, k, h4) = >>=-eq-got (lift (aatxe_client ctx.state dest.server_id)) _ h3 in
      let nicks = channel_users q_env client dest.target in
      let (c, picked, h5) = >>=-eq-got (pick_quotation q_env ctx params dest qdb nicks) _ h4 in
      let (t, o, h6) = >>=-eq-got (output_text q_env params nicks c) _ h5 in
      let (max_len, qs, q, m, cs, occurs, v, s) =
        pick_quotation-IsShownAs q_env ctx params dest qdb nicks c fair picked in
      let same : Reaction.msg t ≡ r = got-injective h6 in
      let permissions = check_file_permissions q_env.env.regex qdb.files dest.target in
      (
        params,
        dest,
        qdb,
        client,
        max_len,
        qs,
        q,
        p,
        lift-got _ dest d,
        lift-got _ qdb b,
        lift-got _ client k,
        m,
        cs,
        occurs,
        v,
        subst (Shows params nicks max_len q) same
            (shown params nicks permissions max_len q c t s o),
      )
