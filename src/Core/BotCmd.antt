-- ===== src/Core/BotCmd.antt =====
-- Running a bot command (`run` and `parse_arg` of src/core/bot_cmd.rs).
pub mod Laws
use irc_bot_rs.Base.{
  Bool, true, false, Option, none, some, ◌++◌, Result, ok, err, on_option, if◌then◌else◌,
}
use irc_bot_rs.Text.{Text, codes}
use irc_bot_rs.BTree.{lookup}
use irc_bot_rs.BTree.Keys.{text_ord}
use irc_bot_rs.Util.Yaml.{Yaml, hash, end, Error as YamlError, yaml_scan}
use irc_bot_rs.Util.Yaml.Check.{parse_and_check_node}
use irc_bot_rs.Core.Err.{yaml_util, handler_panic}
use irc_bot_rs.Core.Env.{Env}
use irc_bot_rs.Core.Irc.{MsgDest, MsgMetadata}
use irc_bot_rs.Core.ModlSys.{BotCmdAuthLvl, public, admin}
use irc_bot_rs.Core.Prefix.{MsgPrefix}
use irc_bot_rs.Core.Reaction.{
  Reaction, BotCmdResult, unauthorized, syntax_err, lib_err, bot_err_msg,
}
use irc_bot_rs.Core.State.{State, BotCommand, command, have_admin}

-- The match of `parse_arg`.
parsed : Result YamlError Yaml → Result BotCmdResult Yaml
parsed (ok arg) = ok arg
parsed (err yaml_scan) = err syntax_err
parsed (err e) = err (lib_err (yaml_util e))

-- `util::run_handler`, with the match on its result
unfoldable pub handled : BotCommand → Result Text BotCmdResult → BotCmdResult
handled c (ok r) = r
handled c (err payload) = lib_err (handler_panic (codes "command") c.name payload)

-- The early return of `run` where the argument is not accepted
abbrev pub with_arg : Result BotCmdResult Yaml → (Yaml → BotCmdResult) → BotCmdResult
with_arg (ok arg) f = f arg
with_arg (err res) f = res

unfoldable pub user_authorized : State → BotCmdAuthLvl → MsgPrefix → Bool
user_authorized s public invoker = true
user_authorized s admin invoker = have_admin s invoker

module _ (env : Env) where
  unfoldable pub parse_arg : Yaml → Text → Result BotCmdResult Yaml
  unfolding parsed
  parse_arg syntax arg_str =
      parsed (parse_and_check_node env.yaml arg_str syntax (codes "<argument>") (hash end))

  unfoldable pub quit_refusal : BotCommand → Option Text → Text
  quit_refusal c s =
      codes "Only commands at authorization level Admin may tell the bot to quit, but the command "
      ++ env.debug c.name
      ++ codes " from module "
      ++ env.debug c.provider.name
      ++ codes ", at authorization level Public, has told the bot to quit with quit message "
      ++ env.debug_quit s
      ++ codes "."

  -- The last match of `run`: only a command for admins may quit.
  unfoldable pub filter_quit : BotCommand → BotCmdAuthLvl → BotCmdResult → BotCmdResult
  unfolding quit_refusal
  filter_quit c public (BotCmdResult.ok (Reaction.quit s)) = bot_err_msg (quit_refusal c s)
  filter_quit c lvl r = r

  -- `run` for the command that was found; the argument is parsed whether or not the user may use it.
  unfoldable pub run_found : State → BotCommand → Text → MsgMetadata → BotCmdResult
  unfolding parse_arg handled filter_quit user_authorized
  run_found s c cmd_args metadata = with_arg (parse_arg c.usage_yaml cmd_args) λ arg.
      filter_quit c c.auth_lvl (
        if user_authorized s c.auth_lvl metadata.prefix
        then handled c (env.run_command s c metadata.dest metadata.prefix arg)
        else unauthorized)

  -- `none` where there is no such command
  unfoldable pub run : State → Text → Text → MsgMetadata → Option BotCmdResult
  unfolding run_found
  run s cmd_name cmd_args metadata =
      on_option (lookup cmd_name s.commands) none λ c. some (run_found s c cmd_args metadata)
