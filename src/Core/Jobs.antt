-- ===== src/Core/Jobs.antt =====
-- The thread that handles a message that is addressed to the bot, and the handling of errors
-- (`handle_bot_command_or_trigger` of src/core/irc_comm.rs, `handle_err` of src/core/mod.rs).
use irc_bot_rs.Base.{Option, none, some, [], ◌++◌, unwrap_or, on_option}
use irc_bot_rs.Text.{Text, codes, is_whitespace, trim, splitn_2}
use irc_bot_rs.BTree.Keys.{server_id_ord}
use irc_bot_rs.Core.BotCmd
use irc_bot_rs.Core.Env.{Env}
use irc_bot_rs.Core.Err.{Error, Outcome, done, failed}
use irc_bot_rs.Core.Irc.{Command, Message, message, MsgMetadata}
use irc_bot_rs.Core.Prefix.{parse, parse_msg_to_nick}
use irc_bot_rs.Core.Reaction.{Reaction, ErrorReaction, BotCmdResult, LibReaction, proceed}
use irc_bot_rs.Core.Reply.{mk_quit, handle_reaction, bot_command_reaction}
use irc_bot_rs.Core.Trigger.{run_any_matching}
use irc_bot_rs.Core.World.{Job, Act, pass, lift, ◌>>=◌, push_to_outbox}

module _ (env : Env) where
  abbrev pub error_reaction : ErrorReaction → Option (LibReaction Message)
  error_reaction proceed = none
  error_reaction (ErrorReaction.quit msg) = some (mk_quit env msg)

  unfoldable pub handle_err : Error → Option (LibReaction Message)
  handle_err e = error_reaction (env.run_error_handler e)

  -- The closure of `handle_bot_command_or_trigger`: the reaction to a message, and the state after
  -- the search for a trigger.
  abbrev pub split_cmd : Text → Text × Text
  split_cmd cmd_ln =
      let (cmd_name, rest) = splitn_2 is_whitespace cmd_ln in (cmd_name, trim (unwrap_or rest []))

  unfoldable pub cmd_line : Job → Text
  cmd_line job = unwrap_or (parse_msg_to_nick job.msg job.target job.bot_nick) []

  abbrev pub job_metadata : Job → MsgMetadata
  job_metadata job = record {
    dest = record { server_id = job.server_id; target = job.target };
    prefix = parse job.prefix;
  }

  abbrev pub trigger_reaction : Option BotCmdResult → Reaction
  trigger_reaction none = Reaction.nothing
  trigger_reaction (some r) = bot_command_reaction env (codes "<trigger>") r

  unfoldable pub choose_reaction : Job → Act Reaction
  unfolding cmd_line
  choose_reaction job w =
      let (cmd_name, cmd_args) = split_cmd (cmd_line job) in
      let triggered = run_any_matching env w.state (cmd_line job) (job_metadata job) in
      on_option (BotCmd.run env w.state cmd_name cmd_args (job_metadata job))
        (((λ v. (triggered.0, record v { state = triggered.1 })) >>= λ r. pass (trigger_reaction r))
          w)
        λ r. (done (bot_command_reaction env cmd_name r), w)

  -- An error is reported to where the message was sent.
  abbrev pub report :
      Text → Outcome (Option (LibReaction Message)) → Outcome (Option (LibReaction Message))
  report target (failed e) = done (
      some (
        LibReaction.raw_msg (
          message (
            Command.privmsg target (
              codes "Encountered error while trying to handle message: " ++ env.display_error e)))))
  report target r = r

  unfoldable pub handle_bot_command_or_trigger : Job → Act (Option (LibReaction Message))
  unfolding choose_reaction
  handle_bot_command_or_trigger job w =
      let (r, v) =
        (choose_reaction job >>= λ reaction.
        lift λ s. handle_reaction env s job.server_id job.prefix job.target reaction job.bot_nick)
          w in
      (report job.target r, v)

  -- The thread that handles a message; a panic ends the thread.
  unfoldable pub run_job : Job → Act Unit
  unfolding handle_bot_command_or_trigger
  run_job job = do
    lib_reaction ← handle_bot_command_or_trigger job
    push_to_outbox job.server_id lib_reaction
