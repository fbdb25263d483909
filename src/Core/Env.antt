-- ===== src/Core/Env.antt =====
-- What the bot's core calls that is not its own code: the handlers of the modules, the crates `irc`,
-- `rando`, `yaml-rust` and `regex`, the formatting of values for messages, and how it was built.
use irc_bot_rs.Base.{ℕ, Bool, Option, List, Result}
use irc_bot_rs.Text.{Text}
use irc_bot_rs.Util.Yaml.{Yaml, YamlRust}
use irc_bot_rs.Util.Regex.{RegexCrate}
use irc_bot_rs.Core.Err.{Error, ServerId}
use irc_bot_rs.Core.Irc.{Command, Message, MsgDest}
use irc_bot_rs.Core.PkgInfo.{BuildEnv}
use irc_bot_rs.Core.Prefix.{MsgPrefix}
use irc_bot_rs.Core.Reaction.{BotCmdResult, ErrorReaction}
use irc_bot_rs.Core.State.{State, BotCommand, Trigger}

-- A handler's run is a result or, as an `err`, what it panicked with. `rand_iter` is an order of a
-- list and the generator afterwards. `overflow_checks` is the profile's setting: whether arithmetic
-- that leaves its type panics or wraps around. `spawn_error` is the error of starting a thread for a
-- message, if there is one.
pub record Env : Type 0 where
  pub run_command : State → BotCommand → MsgDest → MsgPrefix → Yaml → Result Text BotCmdResult
  pub run_trigger : State → Trigger → MsgDest → MsgPrefix → Text → Result Text BotCmdResult
  pub run_error_handler : Error → ErrorReaction
  pub rand_iter : ℕ → List Trigger → List Trigger × ℕ
  pub yaml : YamlRust
  pub regex : RegexCrate
  pub parse_message : Text → Result Text Message
  pub new_command : Text → List Text → Option Text → Result Text Command
  pub debug : Text → Text
  pub debug_quit : Option Text → Text
  pub display_error : Error → Text
  pub display_uuid : ℕ → Text
  pub describe_server : ServerId → Text
  pub build : BuildEnv
  pub spawn_error : Text → Option Text
  pub overflow_checks : Bool
