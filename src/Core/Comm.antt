-- ===== src/Core/Comm.antt =====
-- The handling of messages from a server (the second half of src/core/irc_comm.rs, and `handle_err`
-- and `handle_msg` of src/core/mod.rs).
pub mod Joining
pub mod Preserves
pub mod Threads
pub mod Unregistered
use irc_bot_rs.Base.{
  ℕ, Bool, true, false, not, ◌&&◌, Option, none, some, List, [], ◌∷◌, ◌++◌, ◌==◌, if◌then◌else◌,
  is_nil, unwrap_or, on_option, Result, ok, err, any,
}
use irc_bot_rs.Text.{Text, codes, text_eq, is_whitespace, trim, splitn_2, contains}
use irc_bot_rs.BTree.{insert}
use irc_bot_rs.BTree.Keys.{server_id_ord}
use irc_bot_rs.Core.BotCmd
use irc_bot_rs.Core.Jobs.{handle_err}
use irc_bot_rs.Core.Registration.{handle_motd_end, handle_user_modes_change}
use irc_bot_rs.Core.Config.{Channel}
use irc_bot_rs.Core.Env.{Env}
use irc_bot_rs.Core.Err.{
  ServerId, Error, thread_spawn_failure, irc_crate_message_parse_error, Outcome, done, failed,
  panicked, out_of_fuel,
}
use irc_bot_rs.Core.Irc.{
  UserMode, unknown, Mode, plus, Response, rpl_myinfo, rpl_endofmotd, err_nomotd, Command, Message,
  message, MsgMetadata,
}
use irc_bot_rs.Core.Prefix.{
  OwningMsgPrefix, MsgPrefix, parse, update_from, is_msg_to_nick, parse_msg_to_nick,
}
use irc_bot_rs.Core.Reaction.{Reaction, ErrorReaction, BotCmdResult, LibReaction, proceed}
use irc_bot_rs.Core.Reply.{mk_quit, handle_reaction, bot_command_reaction}
use irc_bot_rs.Core.State.{State, Lock, Server, nick, read_or_write_server, get_server_config}
use irc_bot_rs.Core.Trigger.{run_any_matching}
use irc_bot_rs.Core.World.{
  OutboxRecord, Job, World, Ended, Act, pass, lift, ◌>>=◌, ◌>>◌, push_to_outbox,
}

abbrev pub update_msg_prefix_str : Text
update_msg_prefix_str = codes "!!! UPDATE MESSAGE PREFIX !!!"

abbrev pub set_state : State → Act Unit
set_state s w = (done tt, record w { state = s })

abbrev pub opt_text_eq : Option Text → Text → Bool
opt_text_eq none t = false
opt_text_eq (some s) t = text_eq s t

module _ (env : Env) where
  unfoldable pub update_prefix_info : MsgPrefix → Act Unit
  update_prefix_info prefix w =
      set_state
        (record w.state {
          msg_prefix = record w.state.msg_prefix {
            content = update_from w.state.msg_prefix.content prefix;
          };
        })
        w

  unfoldable pub spawn : Job → Act Unit
  spawn job w =
      on_option (env.spawn_error job.msg) (done tt, record w { jobs = w.jobs ++ job ∷ [] })
        λ e. (failed (thread_spawn_failure e), w)

  unfoldable pub handle_privmsg : ServerId → OwningMsgPrefix → Text → Text → Act Unit
  unfolding update_prefix_info spawn
  handle_privmsg server_id prefix target msg = do
    bot_nick ← lift λ s. nick s server_id
    (if not (is_msg_to_nick target msg bot_nick)
        then pass tt
        else if opt_text_eq (parse prefix).nick target && text_eq (trim msg) update_msg_prefix_str
        then update_prefix_info (parse prefix)
        else spawn (record {
          server_id = server_id;
          prefix = prefix;
          target = target;
          msg = msg;
          bot_nick = bot_nick;
        }))

  unfoldable pub send_msg_prefix_update_request : ServerId → Act (LibReaction Message)
  send_msg_prefix_update_request server_id = do
    bot_nick ← lift λ s. nick s server_id
    pass (LibReaction.raw_msg (message (Command.privmsg bot_nick update_msg_prefix_str)))

  unfoldable pub handle_004 : ServerId → Act (LibReaction Message)
  unfolding send_msg_prefix_update_request
  handle_004 server_id = send_msg_prefix_update_request server_id

  -- A raw command whose suffix has no space is built again with the suffix as an argument.
  unfoldable pub normalise : Command → Outcome Command
  normalise (Command.raw cmd args (some suffix)) =
      if contains suffix (codes " ")
      then done (Command.raw cmd args (some suffix))
      else rebuilt (env.new_command cmd (args ++ suffix ∷ []) none)
    where
      rebuilt : Result Text Command → Outcome Command
      rebuilt (ok c) = done c
      rebuilt (err e) = failed (irc_crate_message_parse_error e)
  normalise c = done c

  unfoldable pub dispatch : ServerId → Option Text → Command → Act Unit
  unfolding handle_privmsg handle_user_modes_change handle_motd_end handle_004
  dispatch server_id prefix (Command.privmsg target msg) =
      handle_privmsg server_id (record { backing = unwrap_or prefix [] }) target msg
  dispatch server_id prefix (Command.user_mode nick' modes) =
      handle_user_modes_change env server_id nick' modes
  dispatch server_id prefix (Command.response rpl_endofmotd args suffix) =
      handle_motd_end env server_id
  dispatch server_id prefix (Command.response err_nomotd args suffix) =
      handle_motd_end env server_id
  dispatch server_id prefix (Command.response rpl_myinfo args suffix) = do
    request ← handle_004 server_id
    push_to_outbox server_id (some request)
  dispatch server_id prefix c = pass tt

  -- `handle_msg` of src/core/irc_comm.rs
  unfoldable pub handle_msg : ServerId → Message → Act Unit
  unfolding normalise dispatch
  handle_msg server_id m = do c ← lift λ s. normalise m.command; dispatch server_id m.prefix c

  -- `handle_msg` of src/core/mod.rs: an error goes to the handler of errors.
  unfoldable pub on_error : ServerId → Ended Unit → Ended Unit
  unfolding handle_err
  on_error server_id (failed e, w) = push_to_outbox server_id (handle_err env e) w
  on_error server_id (r, w) = (r, w)

  unfoldable pub receive : ServerId → Result Error Message → Act Unit
  unfolding handle_msg on_error
  receive server_id (ok m) w = on_error server_id (handle_msg server_id m w)
  receive server_id (err e) w = on_error server_id (failed e, w)
