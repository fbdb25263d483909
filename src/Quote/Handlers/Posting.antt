-- ===== src/Quote/Handlers/Posting.antt =====
-- What becomes of the reply of the command `quote` (src/modules/quote.rs) when it is sent
-- (src/core/irc_comm.rs).
use irc_bot_rs.Base.{
  ℕ, ◌+◌, ◌≤◌, ◌≡◌, sym, ap, ◌∙◌, subst, inl, inr, ◌⊎◌, Bool-cases, Option, some, [], ◌∷◌, ◌==◌,
  arith, All,
}
use irc_bot_rs.Text.{Text, len, lines, trim}
use irc_bot_rs.Util.Yaml.{Yaml}
use irc_bot_rs.Core.Err.{ServerId, done, done-injective}
use irc_bot_rs.Core.Handler.{HandlerContext, got, context_reply_dest}
use irc_bot_rs.Core.Irc.{Message, MsgDest}
use irc_bot_rs.Core.Prefix.{OwningMsgPrefix, parse}
use irc_bot_rs.Core.Reaction.{Reaction, LibReaction, flatten_option}
use irc_bot_rs.Core.Reply.{handle_reaction, privmsg_content_max_len}
use irc_bot_rs.Core.Reply.Guess.{handle_reaction_guessed}
use irc_bot_rs.Core.Reply.Limit.{relayed}
use irc_bot_rs.Core.Reply.Lines.{privmsgs}
use irc_bot_rs.Core.State.{State, Lock, nick}
use irc_bot_rs.Core.Wrap.Fits.{Fits}
use irc_bot_rs.Quote.{Quotation, QuotationDatabase}
use irc_bot_rs.Quote.Handlers.{quote, url_text}
use irc_bot_rs.Quote.Handlers.Reply.{quote-Shows}
use irc_bot_rs.Quote.Pick.{QuoteEnv}
use irc_bot_rs.Quote.Pick.Choice.{IsFair}
use irc_bot_rs.Quote.Render.Munging.{without_zwsp}
use irc_bot_rs.Quote.Render.Laws.{plain_rendering}

len-without_zwsp : (s : Text) → len (without_zwsp s) ≤ len s
len-without_zwsp [] = omega arith
len-without_zwsp (c ∷ s) = elim (Bool-cases (c == 0x200B)) [
  | inl y ↦ rw y (omega (arith, len-without_zwsp s))
  | inr n ↦ rw n (omega (arith, len-without_zwsp s))
]

-- A text that is one line and has no whitespace at its ends fits where it is no longer than the limit.
one_line-Fits :
    (t : Text) (limit : ℕ)
    → lines t ≡ t ∷ []
    → trim t ≡ t
    → len t ≤ limit
    → All (Fits limit) (lines t)
unfolding lines
one_line-Fits [] limit l e h = cc
one_line-Fits (c ∷ s) limit l e h = subst (All (Fits limit)) (sym l) (inr (h, λ n. cc, e), tt)

module _ (q_env : QuoteEnv) (lock : Lock QuotationDatabase) (arg : Yaml) (s : State)
    (server_id : ServerId) (prefix : OwningMsgPrefix) (target bot_nick : Text)
    (dest : MsgDest) where
  -- The context for a message with the prefix and the target.
  abbrev pub ctx : HandlerContext
  ctx = record {
    state = s;
    request_origin = record { server_id = server_id; target = target };
    invoker = parse prefix;
  }

  -- The text is one message to where the bot replies, and is relayed in one piece.
  abbrev pub IsPosted : Text → Type 0
  IsPosted t =
      (o : Option (LibReaction Message)) × (handle_reaction q_env.env s server_id prefix target
          (Reaction.msg t) bot_nick
        ≡ done o)
      × (flatten_option o ≡ privmsgs dest.target (t ∷ []))
      × (len (relayed s.msg_prefix.content.backing dest.target t) ≤ 512)

  -- The text is the URL of a quotation.
  abbrev pub IsUrlOfOne : Text → Type 0
  IsUrlOfOne t = (q : Quotation) × (u : Text) × (q.url ≡ some u) × (t ≡ url_text q.id u)

  within_limit :
      (t : Text) (max_len : ℕ) (q : Quotation)
      → without_zwsp t ≡ t
      → without_zwsp t ≡ without_zwsp (plain_rendering q_env.find_metadata q)
      → len (plain_rendering q_env.find_metadata q) ≤ max_len
      → len t ≤ max_len
  within_limit t max_len q own same fits = omega (
    arith,
    ap (λ x. len x) own,
    ap (λ x. len x) same,
    fits,
    len-without_zwsp (plain_rendering q_env.find_metadata q),
  )

  posted :
      (t : Text) (max_len : ℕ)
      → nick s server_id ≡ done bot_nick
      → context_reply_dest q_env.env ctx ≡ done dest
      → privmsg_content_max_len q_env.env s dest ≡ done max_len
      → lines t ≡ t ∷ []
      → len s.msg_prefix.content.backing + len dest.target + 14 ≤ 512
      → All (Fits max_len) (lines t)
      → IsPosted t
  unfolding context_reply_dest
  posted t max_len n d m one_line room fits =
      let (o, handled, messages, short) =
        handle_reaction_guessed q_env.env s server_id prefix target bot_nick dest t max_len n d m
          fits room in
      (o, handled, rw one_line at messages, (rw one_line at short).0)

  -- If `rand_iter` yields the elements of its list, the bot has a nickname, and the stored prefix and
  -- the destination that the handler guesses leave room in a message, a reply of the command `quote`
  -- that is one line, without whitespace at its ends and without zero-width spaces, is sent as one
  -- `PRIVMSG` with exactly that text, which is relayed within 512 bytes, unless it is the URL of a
  -- quotation.
  pub quote-IsPosted :
      (t : Text)
      → IsFair q_env
      → nick s server_id ≡ done bot_nick
      → context_reply_dest q_env.env ctx ≡ done dest
      → quote q_env ctx lock arg ≡ got (Reaction.msg t)
      → lines t ≡ t ∷ []
      → trim t ≡ t
      → without_zwsp t ≡ t
      → len s.msg_prefix.content.backing + len dest.target + 14 ≤ 512
      → IsPosted t ⊎ IsUrlOfOne t
  quote-IsPosted t fair n guess h one_line trimmed own room =
      let (params, dest', qdb, client, max_len, qs, q, p, d, b, k, m, cs, occurs, v, shows) =
        quote-Shows q_env ctx lock arg (Reaction.msg t) fair h in
      let same_dest : dest' ≡ dest = done-injective (sym d ∙ guess) in
      let m' = subst (λ x. privmsg_content_max_len q_env.env s x ≡ done max_len) same_dest m in
      elim shows [
        | inl (t', r, same, fits, n') ↦
            let t_eq : t' ≡ t = cc in
            inl (
              posted t max_len n guess m' one_line room (
                one_line-Fits t max_len one_line trimmed (
                  within_limit t max_len q own
                    (subst
                      (λ x. without_zwsp x ≡ without_zwsp (plain_rendering q_env.find_metadata q))
                      t_eq same)
                    fits)))
        | inr (u, e, r, long) ↦ inr (q, u, e, cc)
      ]
