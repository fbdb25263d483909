-- ===== src/Core/Registration.antt =====
-- The registration with a server: the end of the message of the day, the changes of the bot's modes,
-- and joining channels after both (src/core/irc_comm.rs).
use irc_bot_rs.Base.{
  ℕ, Bool, true, false, ◌&&◌, Option, none, some, List, [], ◌∷◌, ◌==◌, if◌then◌else◌,
}
use irc_bot_rs.Text.{Text, text_eq}
use irc_bot_rs.BTree.{insert}
use irc_bot_rs.BTree.Keys.{server_id_ord}
use irc_bot_rs.Core.Config.{Channel}
use irc_bot_rs.Core.Env.{Env}
use irc_bot_rs.Core.Err.{ServerId, done}
use irc_bot_rs.Core.Irc.{unknown, Mode, plus, Command, message}
use irc_bot_rs.Core.Reaction.{LibReaction}
use irc_bot_rs.Core.State.{Server, nick, read_or_write_server, get_server_config}
use irc_bot_rs.Core.World.{Act, pass, lift, ◌>>=◌, ◌>>◌, push_to_outbox}

-- Writing through the guard of `write_server`.
abbrev pub set_server : ServerId → Server → Act Unit
set_server server_id server w = (
  done tt,
  record w {
    state = record w.state {
      servers = insert server_id (record { content = server; poisoned = false }) w.state.servers;
    };
  },
)

abbrev pub opt_code_eq : Option ℕ → ℕ → Bool
opt_code_eq none c = false
opt_code_eq (some d) c = d == c

module _ (env : Env) where
  unfoldable pub push_joins : ServerId → List Channel → Act Unit
  push_joins server_id [] = pass tt
  push_joins server_id (chan ∷ chans) = do
    push_to_outbox server_id
        (some (LibReaction.raw_msg (message (Command.join chan.name none none))))
    push_joins server_id chans

  -- Whether the channels were joined; the delay before has no effect on the state.
  unfoldable pub maybe_join_channels : Server → Act Bool
  unfolding push_joins
  maybe_join_channels server =
      if server.motd_finished && server.registration_mode_obtained
      then (do
        config ← lift λ s. get_server_config s server.id
        push_joins server.id config.channels
        pass true)
      else pass false

  unfoldable pub handle_motd_end : ServerId → Act Unit
  unfolding maybe_join_channels
  handle_motd_end server_id = do
    server ← lift λ s. read_or_write_server env.describe_server s server_id
    set_server server_id (record server { motd_finished = true })
    joined ← maybe_join_channels (record server { motd_finished = true })
    pass tt

  unfoldable pub registration_mode_obtained : ServerId → Act Unit
  unfolding maybe_join_channels
  registration_mode_obtained server_id = do
    server ← lift λ s. read_or_write_server env.describe_server s server_id
    set_server server_id (record server { registration_mode_obtained = true })
    joined ← maybe_join_channels (record server { registration_mode_obtained = true })
    pass tt

  -- The first arm of the match of `handle_user_mode_change`.
  unfoldable pub obtain_mode : ServerId → ℕ → Act Unit
  unfolding registration_mode_obtained
  obtain_mode server_id ch = do
    config ← lift λ s. get_server_config s server_id
    (if opt_code_eq config.await_registration_mode ch
        then registration_mode_obtained server_id
        else pass tt)

  unfoldable pub mode_change : ServerId → Bool → Mode → Act Unit
  unfolding obtain_mode
  mode_change server_id true (plus (unknown ch) arg) = obtain_mode server_id ch
  mode_change server_id to_bot mode = pass tt

  unfoldable pub handle_user_mode_change : ServerId → Text → Mode → Act Unit
  unfolding mode_change
  handle_user_mode_change server_id nick' mode = do
    bot_nick ← lift λ s. nick s server_id
    mode_change server_id (text_eq nick' bot_nick) mode

  unfoldable pub handle_user_modes_change : ServerId → Text → List Mode → Act Unit
  unfolding handle_user_mode_change
  handle_user_modes_change server_id nick' [] = pass tt
  handle_user_modes_change server_id nick' (mode ∷ modes) = do
    handle_user_mode_change server_id nick' mode
    handle_user_modes_change server_id nick' modes
