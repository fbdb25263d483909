-- ===== src/Core/Irc.antt =====
-- The messages of the crate `irc` that the bot reads and writes, and the destination and the sender of
-- a message (src/core/irc_msgs.rs).
use irc_bot_rs.Base.{ℕ, Option, List}
use irc_bot_rs.Text.{Text}
use irc_bot_rs.Core.Err.{ServerId}
use irc_bot_rs.Core.Prefix.{MsgPrefix}

pub data UserMode : Type 0 where
  away invisible wallops restricted oper local_oper server_notices : UserMode
  unknown : ℕ → UserMode

pub data Mode : Type 0 where
  plus minus : UserMode → Option Text → Mode

pub data Response : Type 0 where
  rpl_myinfo rpl_endofmotd err_nomotd : Response
  other : ℕ → Response

-- The commands that the bot's code names; every other one is kept as its text.
pub data Command : Type 0 where
  privmsg : Text → Text → Command
  user_mode : Text → List Mode → Command
  response : Response → List Text → Option Text → Command
  raw : Text → List Text → Option Text → Command
  quit : Option Text → Command
  join : Text → Option Text → Option Text → Command
  other : Text → Command

pub record Message : Type 0 where
  pub prefix : Option Text
  pub command : Command

-- `Message::from(command)`
abbrev pub message : Command → Message
message c = record { prefix = Option.none; command = c }

pub record MsgDest : Type 0 where
  pub server_id : ServerId
  pub target : Text

pub record MsgMetadata : Type 0 where
  pub dest : MsgDest
  pub prefix : MsgPrefix
