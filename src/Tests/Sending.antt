-- ===== src/Tests/Sending.antt =====
-- The wrapping, composing and sending of messages of the small bot.
use irc_bot_rs.Base.{
  ℕ, ◌≤◌, ◌<◌, ◌≡◌, refl, ◌⊎◌, ◌↔◌, some, All, Option, List, [], ◌∷◌, arith, replicate,
}
use irc_bot_rs.Text.{Text, codes, len, lines}
use irc_bot_rs.Core.Jobs.{handle_err}
use irc_bot_rs.Core.Err.{nickname_unknown, done}
use irc_bot_rs.Core.Irc.{Command, Message, message, MsgDest}
use irc_bot_rs.Core.Reaction.{Reaction, LibReaction, raw_msg, flatten_option}
use irc_bot_rs.Core.Reply.{handle_reaction, compose_msg, privmsg_content_max_len, privmsg_to}
use irc_bot_rs.Core.Reply.Limit.{relayed, privmsg_content_max_len-relayed}
use irc_bot_rs.Core.Reply.Lines.{IsWrapping, reply_text, privmsgs, compose_msg-IsWrapping}
use irc_bot_rs.Core.Reply.Guess.{handle_reaction_guessed}
use irc_bot_rs.Core.Prefix.{OwningMsgPrefix}
use irc_bot_rs.Core.Send.{send_main}
use irc_bot_rs.Core.Send.Order.{all_messages, send_main-order}
use irc_bot_rs.Core.State.{State, Lock}
use irc_bot_rs.Core.World.{OutboxRecord}
use irc_bot_rs.Core.Wrap.{wrap_msg}
use irc_bot_rs.Core.Wrap.Pieces.{Pieces, wrap_msg-Pieces}
use irc_bot_rs.Core.Wrap.Total.{wrap_msg_total}
use irc_bot_rs.Tests.Data.{env, state, dest, server_id}

wrap_msg-Pieces_example :
    ((len (codes "ab cd ef gh") < 6)
      × ((codes "ab cd" ∷ codes "ef gh" ∷ []) ≡ codes "ab cd ef gh" ∷ []))
    ⊎ ((6 ≤ len (codes "ab cd ef gh"))
        × Pieces 6 (codes "ab cd ef gh") (codes "ab cd" ∷ codes "ef gh" ∷ []))
unfolding wrap_msg irc_bot_rs.Text.match_indices irc_bot_rs.Text.is_whitespace irc_bot_rs.Text.slice
    irc_bot_rs.Text.trim
wrap_msg-Pieces_example =
    wrap_msg-Pieces (codes "ab cd ef gh") 6 (codes "ab cd" ∷ codes "ef gh" ∷ []) refl

wrap_msg_total_example : (ls : List Text) × (wrap_msg (codes "ab cd") 3 ≡ done ls)
wrap_msg_total_example =
    wrap_msg_total (codes "ab cd") 3
      (omega arith, (omega arith, (omega arith, (omega arith, (omega arith, tt))))) (omega arith)

compose_msg-IsWrapping_example :
    (out : List Text) × IsWrapping 489 (lines (reply_text state (codes "eve") (codes "hi"))) out
    × (flatten_option (some (privmsg_to (codes "#a") (codes "eve: hi")))
        ≡ privmsgs (codes "#a") out)
unfolding privmsg_content_max_len irc_bot_rs.Core.State.prefix_len irc_bot_rs.Core.Prefix.owning_len
    compose_msg lines wrap_msg
compose_msg-IsWrapping_example =
    compose_msg-IsWrapping env state dest (codes "eve") (codes "hi") 489
      (some (privmsg_to (codes "#a") (codes "eve: hi"))) refl refl

privmsg_content_max_len-relayed_example :
    (n : ℕ) × (privmsg_content_max_len env state dest ≡ done n)
    × ((len (relayed (codes "bot!b@h") (codes "#a") (codes "hi")) ≤ 512) ↔ (len (codes "hi") ≤ n))
privmsg_content_max_len-relayed_example =
    privmsg_content_max_len-relayed env state dest (codes "hi") refl (omega arith)

-- A target that takes 600 bytes.
abbrev far : MsgDest
far = record { server_id = server_id; target = replicate 600 b'a' }

abbrev to_bot : Text → OutboxRecord
to_bot t = record { server_id = server_id; output = raw_msg (message (Command.other t)) }

send_main-order_example :
    send_main env
      (λ c m. some nickname_unknown)
      state
      (to_bot (codes "x") ∷ to_bot (codes "y") ∷ [])
    ≡ (all_messages state (to_bot (codes "x") ∷ to_bot (codes "y") ∷ []), done tt)
unfolding handle_err
send_main-order_example =
    send_main-order env (λ c m. some nickname_unknown) state
      (to_bot (codes "x") ∷ to_bot (codes "y") ∷ []) (λ c m e h. refl) refl

abbrev eve : OwningMsgPrefix
eve = record { backing = codes "eve!e@h" }

-- Eve asks in a channel, and the handler answers with two lines.
handle_reaction_guessed_example :
    (o : Option (LibReaction Message)) × (handle_reaction env state server_id eve
        (codes "#a")
        (Reaction.msg (codes "hi\nho"))
        (codes "bot")
      ≡ done o)
    × (flatten_option o ≡ privmsgs (codes "#a") (codes "hi" ∷ codes "ho" ∷ []))
    × All (λ l. len (relayed (codes "bot!b@h") (codes "#a") l) ≤ 512) (codes "hi" ∷ codes "ho" ∷ [])
unfolding lines privmsg_content_max_len irc_bot_rs.Core.State.prefix_len
    irc_bot_rs.Core.Prefix.owning_len irc_bot_rs.Core.Reply.guess_reply_dest
    irc_bot_rs.Core.State.nick irc_bot_rs.Core.Prefix.parse irc_bot_rs.Text.splitn_2
    irc_bot_rs.Text.rsplitn_2
handle_reaction_guessed_example =
    handle_reaction_guessed env state server_id eve (codes "#a") (codes "bot") dest (codes "hi\nho")
      489 refl refl refl (omega arith, (omega arith, tt)) (omega arith)
