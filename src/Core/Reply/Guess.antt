-- ===== src/Core/Reply/Guess.antt =====
-- Where a reply goes, as a handler guesses it and as the reaction is handled (`guess_reply_dest` and
-- `handle_reaction` of src/core/irc_comm.rs).
use irc_bot_rs.Base.{
  ℕ, ◌+◌, ◌≤◌, ◌≡◌, refl, sym, ◌∙◌, inl, inr, false, Bool-cases, Option, Option-cases, List, [],
  ◌∷◌, arith, All, unwrap_or, subst,
}
use irc_bot_rs.Text.{Text, len, lines, text_eq}
use irc_bot_rs.Core.Err.{ServerId, done, done-injective}
use irc_bot_rs.Core.Env.{Env}
use irc_bot_rs.Core.Irc.{Message, MsgDest, MsgMetadata}
use irc_bot_rs.Core.Prefix.{OwningMsgPrefix, parse}
use irc_bot_rs.Core.Reaction.{Reaction, LibReaction, flatten_option}
use irc_bot_rs.Core.Reply.{
  guess_reply_dest, privmsg_content_max_len, reply_target, react, handle_reaction,
}
use irc_bot_rs.Core.Reply.Limit.{relayed, privmsg_content_max_len-relayed}
use irc_bot_rs.Core.Reply.Lines.{privmsgs, compose_msg-Fits}
use irc_bot_rs.Core.Wrap.Fits.{Fits}
use irc_bot_rs.Core.State.{State, nick, prefix_len, read_msg_prefix}

Fits-le : (limit : ℕ) (l : Text) → Fits limit l → len l ≤ limit
Fits-le limit l (inl h) = omega arith
Fits-le limit l (inr (h, n, t)) = h

module _ (env : Env) (s : State) (server_id : ServerId) (prefix : OwningMsgPrefix)
    (target bot_nick : Text) (dest : MsgDest) where
  -- What a handler knows of the message that it runs for.
  abbrev metadata : MsgMetadata
  metadata = record {
    dest = record { server_id = server_id; target = target };
    prefix = parse prefix;
  }

  -- The target that a handler guesses is the one that its reply goes to.
  abbrev IsTarget : MsgDest → Type 0
  IsTarget d =
      (addressee : Text) × (reply_target env prefix target bot_nick ≡ done (d.target, addressee))
      × (record { server_id = server_id; target = d.target } ≡ d)

  guess_reply_dest-IsTarget :
      nick s server_id ≡ done bot_nick → guess_reply_dest env s metadata ≡ done dest → IsTarget dest
  unfolding guess_reply_dest reply_target
  guess_reply_dest-IsTarget n h = elim (Bool-cases (text_eq target bot_nick)) [
    | inl y ↦ elim (Option-cases (parse prefix).nick) [
      | inl e ↦ cc (rw (n, y, e) at h)
      | inr (sender, e) ↦
          let same : record { server_id = server_id; target = sender } ≡ dest =
            done-injective (rw (n, y, e) at h) in
          subst IsTarget same ([], rw (y, e) refl, refl)
    ]
    | inr y ↦
        let same : record { server_id = server_id; target = target } ≡ dest =
          done-injective (rw (n, y) at h) in
        subst IsTarget same (unwrap_or (parse prefix).nick [], rw y refl, refl)
  ]

  not_poisoned :
      (limit : ℕ) → privmsg_content_max_len env s dest ≡ done limit → s.msg_prefix.poisoned ≡ false
  unfolding privmsg_content_max_len prefix_len read_msg_prefix
  not_poisoned limit m = elim (Bool-cases s.msg_prefix.poisoned) [
    | inl y ↦ cc (rw y at m)
    | inr y ↦ y
  ]

  All-relayed :
      len s.msg_prefix.content.backing + len dest.target + 14 ≤ 512
      → (limit : ℕ) → privmsg_content_max_len env s dest ≡ done limit
      → (ls : List Text) → All (Fits limit) ls
      → All (λ l. len (relayed s.msg_prefix.content.backing dest.target l) ≤ 512) ls
  All-relayed room limit m [] short = tt
  All-relayed room limit m (l ∷ ls) (short, rest) =
      let (limit', m', fits) =
        privmsg_content_max_len-relayed env s dest l (not_poisoned limit m) room in
      let same : limit' ≡ limit = done-injective (sym m' ∙ m) in
      (fits.1 (omega (arith, same, Fits-le limit l short)), All-relayed room limit m ls rest)

  -- A text that a handler of a message returns, and all of whose lines fit into the limit for the
  -- destination that the handler guesses (they are shorter, or exactly as long, not empty, and without
  -- whitespace at their ends), is sent there, if the bot has a nickname and the stored prefix and the
  -- destination leave room in a message: one `PRIVMSG` for each line, unchanged and in order, and the server relays each within 512
  -- bytes.
  pub handle_reaction_guessed :
      (t : Text) (limit : ℕ)
      → nick s server_id ≡ done bot_nick
      → guess_reply_dest env s metadata ≡ done dest
      → privmsg_content_max_len env s dest ≡ done limit
      → All (Fits limit) (lines t)
      → len s.msg_prefix.content.backing + len dest.target + 14 ≤ 512
      → (o : Option (LibReaction Message)) × (handle_reaction env s server_id prefix target
            (Reaction.msg t)
            bot_nick
          ≡ done o)
        × (flatten_option o ≡ privmsgs dest.target (lines t))
        × All (λ l. len (relayed s.msg_prefix.content.backing dest.target l) ≤ 512) (lines t)
  unfolding handle_reaction react
  handle_reaction_guessed t limit n h m short room =
      let (addressee, e, same) = guess_reply_dest-IsTarget n h in
      let (o, composed, messages) = compose_msg-Fits env s dest [] t limit m short in
      (o, rw (e, same) composed, messages, All-relayed room limit m (lines t) short)
