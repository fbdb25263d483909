-- ===== src/Modules/Default.antt =====
-- The module `default` (src/modules/default.rs).
pub mod Commands
pub mod Safety
use irc_bot_rs.Base.{
  ℕ, Bool, true, false, ◌&&◌, Option, none, some, List, [], ◌∷◌, ◌++◌, if◌then◌else◌, is_some,
  on_option, unwrap_or, Result, ok, err,
}
use irc_bot_rs.Text.{Text, codes, text_eq, join}
use irc_bot_rs.Util.Yaml.{Yaml, string, hash, Fields, scalar_to_str, get}
use irc_bot_rs.Core.Err.{Outcome, done, failed, panicked, out_of_fuel}
use irc_bot_rs.Core.Env.{Env}
use irc_bot_rs.Core.Handler.{
  HandlerContext, Attempt, got, refused, crashed, ◌>>=◌, lift_yaml, expect_hash, try_map,
}
use irc_bot_rs.Core.ModlSys.{BotCmdAuthLvl, public, admin}
use irc_bot_rs.Core.PkgInfo.{name_str, version_str, homepage_str}
use irc_bot_rs.Core.Reaction.{Reaction, BotCmdResult, arg_missing_1to1}
use irc_bot_rs.Core.State.{State, BotCommand, nick, command, command_names}

-- The answer of `unwrap_or` on a call that may fail or panic.
abbrev pub outcome_or : Outcome Text → Text → Attempt Text
outcome_or (done t) d = got t
outcome_or (failed e) d = got d
outcome_or panicked d = crashed
outcome_or out_of_fuel d = Attempt.unfinished

abbrev auth_lvl_name : BotCmdAuthLvl → Text
auth_lvl_name public = codes "Public"
auth_lvl_name admin = codes "Admin"

abbrev text_of : Option Yaml → Option Text
text_of (some (string t)) = some t
text_of other = none

-- `debug_list` is the debug format of a list of names.
module _ (env : Env) (debug_list : List Text → Text) where
  abbrev scalar : Text → Yaml → Attempt Text
  scalar label y = lift_yaml (scalar_to_str env.yaml y label)

  unfoldable pub join_channel : Yaml → Attempt Reaction
  join_channel arg = do
    t ← scalar (codes "the argument to the command `join`") arg
    got (Reaction.raw_msg (codes "JOIN " ++ t))

  -- The parameter `msg`
  abbrev pub comment_of : Fields → Attempt (Option Text)
  comment_of arg =
      try_map (get env.yaml arg (string (codes "msg")))
        (scalar (codes "the value of the parameter `msg`"))

  abbrev pub part_line : Text → Option Text → Text
  part_line chan comment =
      codes "PART "
      ++ (chan ++ ((if is_some comment then codes " :" else []) ++ unwrap_or comment []))

  -- The channel that is given, or else the one that the message came from, unless that is the bot.
  part_from : HandlerContext → Option Text → Attempt (Option Text)
  part_from ctx (some c) = got (some c)
  part_from ctx none = do
    bot_nick ← outcome_or (nick ctx.state ctx.request_origin.server_id) []
    got (
        if text_eq ctx.request_origin.target bot_nick then none else some ctx.request_origin.target)

  part_reaction : Fields → Option Text → Attempt BotCmdResult
  part_reaction arg none = got (arg_missing_1to1 (codes "channel"))
  part_reaction arg (some chan) = do
    comment ← comment_of arg
    got (BotCmdResult.ok (Reaction.raw_msg (part_line chan comment)))

  unfoldable pub part : HandlerContext → Yaml → Attempt BotCmdResult
  unfolding part_from part_reaction
  part ctx arg_yaml = do
    arg ← expect_hash arg_yaml
    given ←
        try_map (get env.yaml arg (string (codes "chan")))
          (scalar (codes "the value of the parameter `chan`"))
    chan ← part_from ctx given
    part_reaction arg chan

  unfoldable pub quit : Yaml → Attempt Reaction
  quit arg_yaml = do
    arg ← expect_hash arg_yaml
    comment ← comment_of arg
    got (Reaction.quit comment)

  abbrev pub ping : BotCmdResult
  ping = BotCmdResult.ok (Reaction.reply (codes "pong"))

  abbrev pub bot_fw_info : BotCmdResult
  bot_fw_info = BotCmdResult.ok (
      Reaction.reply (
        codes "This bot was built with `"
        ++ (name_str env.build
            ++ (codes ".rs`, version "
                ++ (version_str env.build
                    ++ (codes "; see <" ++ (homepage_str env.build ++ codes ">.")))))))

  unfoldable pub help_command : Text → Option BotCommand → Reaction
  help_command cmd_name none =
      Reaction.msg (codes "Command " ++ (env.debug cmd_name ++ codes " not found."))
  help_command cmd_name (some c) = Reaction.msgs (
      (codes "= Help for command " ++ (env.debug c.name ++ codes ":"))
      ∷ (codes "- [module "
          ++ (env.debug c.provider.name
              ++ (codes ", auth level " ++ (auth_lvl_name c.auth_lvl ++ codes "]"))))
      ∷ (codes "- Syntax: " ++ (c.name ++ (codes " " ++ c.usage_str)))
      ∷ c.help_msg
      ∷ [])

  abbrev pub list_names : List Text
  list_names = codes "commands" ∷ codes "lists" ∷ []

  unfoldable pub help_list : State → Text → Reaction
  help_list s list_name =
      if text_eq list_name (codes "commands")
      then Reaction.msg (codes "Available commands: " ++ debug_list (command_names s))
      else if text_eq list_name (codes "lists")
      then Reaction.msg (codes "Available lists: " ++ debug_list list_names)
      else Reaction.msg (
          codes "List "
          ++ (env.debug list_name
              ++ (codes " not found. Available lists: " ++ debug_list list_names)))

  abbrev pub general_help : Reaction
  general_help = Reaction.msgs (
      codes "For help with a command named 'foo', try `help cmd: foo`."
      ∷ codes "To see a list of all available commands, try `help list: commands`."
      ∷ (codes
            "For this bot software's documentation, including an introduction to the command syntax, see <"
          ++ (homepage_str env.build ++ codes ">"))
      ∷ [])

  -- The chain of `if let`: only texts are read.
  help_by : State → Option Text → Option Text → Reaction
  unfolding help_command help_list
  help_by s cmd list =
      on_option cmd (on_option list general_help (help_list s))
        λ cmd_name. help_command cmd_name (command s cmd_name)

  abbrev get_in : Yaml → Text → Option Yaml
  get_in (hash arg) key = get env.yaml arg (string key)
  get_in other key = none

  unfoldable pub help : State → Yaml → BotCmdResult
  unfolding help_by
  help s arg =
      if is_some (get_in arg (codes "cmd")) && is_some (get_in arg (codes "list"))
      then BotCmdResult.ok (Reaction.msg (codes "Please ask for help with one thing at a time."))
      else BotCmdResult.ok
          (help_by s (text_of (get_in arg (codes "cmd"))) (text_of (get_in arg (codes "list"))))

  abbrev pub empty_msg_trigger : Reaction
  empty_msg_trigger = Reaction.msg (codes "Yes?")
