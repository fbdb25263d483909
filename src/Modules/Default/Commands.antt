-- ===== src/Modules/Default/Commands.antt =====
-- The module `default` as it is built (`mk`), and which handler runs for which of its commands.
use irc_bot_rs.Base.{◌==◌, if◌then◌else◌, ℕ, [], List}
use irc_bot_rs.Text.{Text, codes}
use irc_bot_rs.Util.Yaml.{Yaml}
use irc_bot_rs.Core.Env.{Env}
use irc_bot_rs.Core.Err.{Outcome, done, ◌>>=◌}
use irc_bot_rs.Core.Handler.{HandlerContext, Attempt, got, into_result}
use irc_bot_rs.Core.Handler
use irc_bot_rs.Core.ModlSys.{
  Module, Handler, public, admin, minimum, mk_module, add_command, add_trigger, end_module,
}
use irc_bot_rs.Core.Reaction.{Reaction, BotCmdResult}
use irc_bot_rs.Modules.Default.{join_channel, part, quit, ping, bot_fw_info, help}

-- The handlers of the commands, as numbers, and that of the trigger.
abbrev pub empty_msg_trigger_handler : Handler
empty_msg_trigger_handler = 6

module _ (env : Env) (debug_list : List Text → Text) where
  -- A reaction as a result: `From<Reaction> for BotCmdResult`
  abbrev reaction : Attempt Reaction → Attempt BotCmdResult
  reaction r = Handler.◌>>=◌ r λ x. got (BotCmdResult.ok x)

  unfoldable pub run_handler : Handler → HandlerContext → Yaml → Outcome BotCmdResult
  run_handler h ctx arg =
      if h == 0
      then into_result (reaction (join_channel env debug_list arg))
      else if h == 1
      then into_result (part env debug_list ctx arg)
      else if h == 2
      then into_result (reaction (quit env debug_list arg))
      else if h == 3
      then done (ping env debug_list)
      else if h == 4
      then done (bot_fw_info env debug_list)
      else done (help env debug_list ctx.state arg)

  unfoldable pub mk : ℕ → ℕ → Outcome Module
  mk uuid trigger_uuid = do
    b0 ←
        add_command env.yaml (codes "join") (codes "<channel>")
          (codes
            "Have the bot join the given channel. Note that a channel name containing the character '#' will need to be enclosed in quotation marks, like '#channel' or \"#channel\".")
          admin 0 (mk_module (codes "default"))
    b1 ←
        add_command env.yaml (codes "part") (codes "{chan: '[channel]', msg: '[message]'}")
          (codes
            "Have the bot part from the given channel (defaults to the current channel), with an optional part message.")
          admin 1 b0
    b2 ←
        add_command env.yaml (codes "quit") (codes "{msg: '[message]'}")
          (codes "Have the bot quit.") admin 2 b1
    b3 ←
        add_command env.yaml (codes "ping") []
          (codes "Request a short message from the bot, typically for testing purposes.") public 3
          b2
    b4 ←
        add_command env.yaml (codes "framework-info") []
          (codes
            "Request information about the framework with which the bot was built, such as the URL of a Web page about it.")
          public 4 b3
    b5 ←
        add_command env.yaml (codes "help") (codes "{cmd: '[command]', list: '[list name]'}")
          (codes "Request help with the bot's features, such as commands.") public 5 b4
    b6 ←
        add_trigger env.regex trigger_uuid (codes "yes?") (codes "^$")
          (codes "Say \"Yes?\" in response to otherwise empty messages addressed to the bot.")
          minimum empty_msg_trigger_handler [] b5
    done (end_module uuid b6)
