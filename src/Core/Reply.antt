-- ===== src/Core/Reply.antt =====
-- From reactions to messages (the first half of src/core/irc_comm.rs).
pub mod Lines
pub mod Guess
pub mod Limit
use irc_bot_rs.Base.{
  ℕ, ◌+◌, ◌-◌, ◌^◌, Bool, true, false, Option, none, some, List, [], ◌∷◌, ◌++◌, map, leb,
  if◌then◌else◌, is_nil, unwrap_or, Result, ok, err,
}
use irc_bot_rs.Text.{Text, codes, len, text_eq, lines}
use irc_bot_rs.Core.Err.{
  ServerId, Error, irc_crate_message_parse_error, received_msg_has_bad_prefix, Outcome, done,
  failed, panicked, out_of_fuel, ◌>>=◌, ok_or,
}
use irc_bot_rs.Core.Env.{Env}
use irc_bot_rs.Core.Irc.{Command, Message, message, MsgDest, MsgMetadata}
use irc_bot_rs.Core.PkgInfo.{brief_credits_string}
use irc_bot_rs.Core.Prefix.{OwningMsgPrefix, MsgPrefix, parse}
use irc_bot_rs.Core.Reaction.{Reaction, BotCmdResult, LibReaction, LibReactions, multi}
use irc_bot_rs.Core.State.{State, nick, prefix_len}
use irc_bot_rs.Core.Wrap.{wrap_msg}

-- `a - b` on `usize`: below zero it panics, or wraps around.
abbrev pub usize_sub : Bool → ℕ → ℕ → Outcome ℕ
usize_sub checked a b =
    if leb b a then done (a - b) else if checked then panicked else done (2 ^ 64 + a - b)

abbrev pub raw_len_limit : ℕ
raw_len_limit = 512

abbrev pub punctuation_len : ℕ
punctuation_len = 2 + 3 + 2

-- `Some` of the elements, of the only element, or `None`: the last match of `compose_msg` and of
-- `compose_msgs`.
abbrev pub from_list : List (LibReaction Message) → LibReactions Message
from_list [] = LibReactions.nil
from_list (r ∷ rs) = LibReactions.cons r (from_list rs)

abbrev pub gather : List (LibReaction Message) → Option (LibReaction Message)
gather [] = none
gather (r ∷ []) = some r
gather (r ∷ r' ∷ rs) = some (multi (from_list (r ∷ r' ∷ rs)))

abbrev pub cons_some : {A : Type 0} → Option A → List A → List A
cons_some none rest = rest
cons_some (some a) rest = a ∷ rest

abbrev pub privmsg_to : Text → Text → LibReaction Message
privmsg_to target line = LibReaction.raw_msg (message (Command.privmsg target line))

unwrap_nick : Option Text → Outcome (Text × Text)
unwrap_nick none = panicked
unwrap_nick (some nick) = done (nick, [])

module _ (env : Env) where
  unfoldable pub guess_reply_dest : State → MsgMetadata → Outcome MsgDest
  guess_reply_dest s metadata = do
    bot_nick ← nick s metadata.dest.server_id
    (let to_sender = ok_or metadata.prefix.nick received_msg_has_bad_prefix in
        (do
          target ←
              if text_eq metadata.dest.target bot_nick then to_sender else done metadata.dest.target
          done (record { server_id = metadata.dest.server_id; target = target })))

  unfoldable pub privmsg_content_max_len : State → MsgDest → Outcome ℕ
  privmsg_content_max_len s dest = do
    prefix ← prefix_len s dest.server_id
    usize_sub env.overflow_checks raw_len_limit
        (prefix + len (codes "PRIVMSG") + len dest.target + punctuation_len)

  -- The loop of `compose_msg` over the lines, with the call of `wrap_msg` for each.
  unfoldable pub wrap_each : State → MsgDest → List Text → Outcome (List Text)
  unfolding privmsg_content_max_len
  wrap_each s dest [] = done []
  wrap_each s dest (line ∷ rest) = do
    limit ← privmsg_content_max_len s dest
    wrapped ← wrap_msg line limit
    others ← wrap_each s dest rest
    done (wrapped ++ others)

  unfoldable pub compose_msg :
      State → MsgDest → Text → Text → Outcome (Option (LibReaction Message))
  unfolding wrap_each
  compose_msg s dest addressee msg = do
    wrapped ←
        wrap_each s dest
          (lines (addressee ++ (if is_nil addressee then [] else s.addressee_suffix) ++ msg))
    done (gather (map (privmsg_to dest.target) wrapped))

  unfoldable pub compose_each :
      State → MsgDest → Text → List Text → Outcome (List (LibReaction Message))
  unfolding compose_msg
  compose_each s dest addressee [] = done []
  compose_each s dest addressee (msg ∷ msgs) = do
    m ← compose_msg s dest addressee msg
    output ← compose_each s dest addressee msgs
    done (cons_some m output)

  unfoldable pub compose_msgs :
      State → MsgDest → Text → List Text → Outcome (Option (LibReaction Message))
  unfolding compose_each
  compose_msgs s dest addressee msgs = do
    output ← compose_each s dest addressee msgs
    done (gather output)

  unfoldable pub mk_quit : Option Text → LibReaction Message
  mk_quit none =
      LibReaction.raw_msg (message (Command.quit (some (brief_credits_string env.build))))
  mk_quit (some msg) = LibReaction.raw_msg (message (Command.quit (some msg)))

  -- `s.parse()?`
  unfoldable pub parse_raw : Result Text Message → Outcome (Option (LibReaction Message))
  parse_raw (ok m) = done (some (LibReaction.raw_msg m))
  parse_raw (err e) = failed (irc_crate_message_parse_error e)

  -- The nick that a reply in private goes to; there, `unwrap` fails without a nick.
  unfoldable pub reply_target : OwningMsgPrefix → Text → Text → Outcome (Text × Text)
  unfolding unwrap_nick
  reply_target prefix target bot_nick =
      if text_eq target bot_nick
      then unwrap_nick (parse prefix).nick
      else done (target, unwrap_or (parse prefix).nick [])

  unfoldable pub react : State → MsgDest → Text → Reaction → Outcome (Option (LibReaction Message))
  unfolding compose_msg compose_msgs mk_quit parse_raw
  react s dest addressee Reaction.nothing = done none
  react s dest addressee (Reaction.msg t) = compose_msg s dest [] t
  react s dest addressee (Reaction.msgs a) = compose_msgs s dest [] a
  react s dest addressee (Reaction.reply t) = compose_msg s dest addressee t
  react s dest addressee (Reaction.replies a) = compose_msgs s dest addressee a
  react s dest addressee (Reaction.raw_msg t) = parse_raw (env.parse_message t)
  react s dest addressee (Reaction.quit msg) = done (some (mk_quit msg))

  unfoldable pub handle_reaction :
      State
      → ServerId
      → OwningMsgPrefix
      → Text
      → Reaction
      → Text
      → Outcome (Option (LibReaction Message))
  unfolding reply_target react
  handle_reaction s server_id prefix target reaction bot_nick = do
    (to, addressee) ← reply_target prefix target bot_nick
    react s (record { server_id = server_id; target = to }) addressee reaction

  unfoldable pub bot_command_reaction : Text → BotCmdResult → Reaction
  bot_command_reaction cmd_name (BotCmdResult.ok r) = r
  bot_command_reaction cmd_name BotCmdResult.unauthorized = Reaction.msg (
      codes "My apologies, but you do not appear to have sufficient authority to use my "
      ++ env.debug cmd_name
      ++ codes " command.")
  bot_command_reaction cmd_name (BotCmdResult.param_unauthorized param_name) = Reaction.msg (
      codes "My apologies, but you do not appear to have sufficient authority to use the parameter "
      ++ env.debug param_name
      ++ codes " of my "
      ++ env.debug cmd_name
      ++ codes " command.")
  bot_command_reaction cmd_name BotCmdResult.syntax_err =
      Reaction.msg (codes "Syntax error. Try my `help` command.")
  bot_command_reaction cmd_name (BotCmdResult.arg_missing arg_name) = Reaction.msg (
      codes "Syntax error: For command "
      ++ env.debug cmd_name
      ++ codes ", the argument "
      ++ env.debug arg_name
      ++ codes " is required, but it was not given.")
  bot_command_reaction cmd_name (BotCmdResult.arg_missing_1to1 arg_name) = Reaction.msg (
      codes "Syntax error: When command "
      ++ env.debug cmd_name
      ++ codes " is used outside of a channel, the argument "
      ++ env.debug arg_name
      ++ codes " is required, but it was not given.")
  bot_command_reaction cmd_name (BotCmdResult.lib_err e) =
      Reaction.msg (codes "Error: " ++ env.display_error e)
  bot_command_reaction cmd_name (BotCmdResult.user_err_msg s) =
      Reaction.msg (codes "User error: " ++ s)
  bot_command_reaction cmd_name (BotCmdResult.bot_err_msg s) =
      Reaction.msg (codes "Internal error: " ++ s)
