-- ===== src/Core/Comm/Joining.antt =====
-- When the bot joins the channels of a server.
use irc_bot_rs.Base.{ℕ, Option, ◌≡◌, refl, ap, Bool, true, false, ◌&&◌, none, List, [], ◌∷◌, map}
use irc_bot_rs.Text.{Text}
use irc_bot_rs.BTree.Keys.{server_id_ord}
use irc_bot_rs.Core.Config.{Channel, Server as ServerConfig}
use irc_bot_rs.Core.Env.{Env}
use irc_bot_rs.Core.Err.{ServerId, done}
use irc_bot_rs.Core.Irc.{plus, unknown, Command, message}
use irc_bot_rs.Core.Reaction.{LibReaction}
use irc_bot_rs.Core.State.{Server, read_or_write_server}
use irc_bot_rs.Core.World.{OutboxRecord, World, Act, Ended, pass, and_then}
use irc_bot_rs.Core.Registration.{
  set_server, maybe_join_channels, handle_motd_end, registration_mode_obtained,
  handle_user_modes_change,
}

-- The requests to join the channels of a server, in the order of the configuration.
abbrev pub join_records : ServerId → List Channel → List OutboxRecord
join_records id = map λ chan. record {
  server_id = id;
  output = LibReaction.raw_msg (message (Command.join chan.name none none));
}

pub not_ready :
    (env : Env) (server : Server) (w : World)
    → server.motd_finished && server.registration_mode_obtained ≡ false
    → maybe_join_channels env server w ≡ (done false, w)
unfolding maybe_join_channels
not_ready env server w h = rw h refl

pub motd_step :
    (env : Env) (id : ServerId) (server : Server) (w : World) (r : Ended Bool)
    → read_or_write_server env.describe_server w.state id ≡ done server
    → maybe_join_channels env
        (record server { motd_finished = true })
        (set_server id (record server { motd_finished = true }) w).1
      ≡ r
    → handle_motd_end env id w ≡ and_then r (λ _. pass tt)
unfolding handle_motd_end
motd_step env id server w r e m = rw e (ap (λ x. and_then x (λ _. pass tt)) m)

-- The server sets one mode of a user.
abbrev pub sets_mode : Env → ServerId → Text → ℕ → Option Text → Act Unit
sets_mode env id user ch arg = handle_user_modes_change env id user (plus (unknown ch) arg ∷ [])
