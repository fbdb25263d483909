-- ===== src/Core/Start/Joins.antt =====
-- When a bot that has been started joins its channels, and when it does not.
use irc_bot_rs.Base.{◌≡◌, refl, true, none, some, ℕ, Option, List, [], ◌∷◌}
use irc_bot_rs.Text.{Text}
use irc_bot_rs.BTree.{lookup}
use irc_bot_rs.BTree.Keys.{server_id_ord}
use irc_bot_rs.Core.Registration.{handle_motd_end, handle_user_modes_change}
use irc_bot_rs.Core.Comm.Joining.{sets_mode, join_records}
use irc_bot_rs.Core.Comm.Threads.{Reach}
use irc_bot_rs.Core.Comm.Unregistered.{never_joins}
use irc_bot_rs.Core.Irc.{Mode}
use irc_bot_rs.Core.Config.{
  AatxeConfig, Channel, Config, InnerConfig, Server as ServerConfig, fill_in_config_defaults,
  aatxe_config, cook_config,
}
use irc_bot_rs.Core.Config.Laws.{cook_config-IsCooked}
use irc_bot_rs.Core.Env.{Env}
use irc_bot_rs.Core.Err.{done, ServerId}
use irc_bot_rs.Core.ModlSys.{Handler, Module}
use irc_bot_rs.Core.Start.{StartEnv, running, clean, new_server, run}
use irc_bot_rs.Core.Start.Servers.{first_id, run-servers}
use irc_bot_rs.Core.State.{State, Server, Lock, get_server_config}
use irc_bot_rs.Core.World.{World}

-- What the threads share when the reactor begins to run.
abbrev pub first_world : State → World
first_world s = record { state = s; outbox = []; connected = true; jobs = [] }

lookup_only : (id : ServerId) (l : Lock Server) → lookup id ((id, l) ∷ []) ≡ some l
unfolding lookup
lookup_only id l = rw ((server_id_ord.cmp_eq_iff id id).1 refl) refl

-- The outbox after each of the two events, and after both, in either order.
abbrev pub JoinsAfterBoth : Env → ServerId → Text → ℕ → Option Text → World → List Channel → Type 0
JoinsAfterBoth env id bot_nick ch arg w channels =
    ((handle_motd_end env id w).1.outbox ≡ [])
    × ((sets_mode env id bot_nick ch arg (handle_motd_end env id w).1).1.outbox
        ≡ join_records id channels)
    × ((sets_mode env id bot_nick ch arg w).1.outbox ≡ [])
    × ((handle_motd_end env id (sets_mode env id bot_nick ch arg w).1).1.outbox
        ≡ join_records id channels)

-- No event of the registration has the bot send anything.
abbrev pub IsQuiet : Env → ServerId → World → Type 0
IsQuiet env id w =
    ((handle_motd_end env id w).1.outbox ≡ w.outbox)
    × ((to : Text) (modes : List Mode)
        → (handle_user_modes_change env id to modes w).1.outbox ≡ w.outbox)

module _ (start_env : StartEnv) (env : Env) (credits : Text) (given : InnerConfig)
    (server : ServerConfig) (config : Config) (path : Text) (handler : Handler)
    (modules : List Module) (s : State) where
  -- The bot is started from an accepted configuration with one server.
  abbrev pub first : ServerId
  first = first_id start_env

  -- What is known of the server when the reactor begins to run.
  started_server :
      given.servers ≡ server ∷ []
      → cook_config credits given ≡ done config
      → run start_env env (done config) path handler modules ≡ running s
      → (ac : AatxeConfig) × (s.servers ≡ (first, clean (new_server start_env first ac)) ∷ [])
        × (get_server_config s first ≡ done server)
  unfolding get_server_config
  started_server one cooked h =
      let (server', one', same, servers) =
        run-servers start_env env credits given config path handler modules s cooked h in
      let e : server' ≡ server = cc (one, one') in
      let c = cook_config-IsCooked credits given config cooked in
      (
        aatxe_config credits (fill_in_config_defaults credits given) server',
        servers,
        rw (same, c.same_servers, one) refl,
      )

  -- A bot that has been started from an accepted configuration whose server has no mode to wait for
  -- does not join the configured channels at any time in its registration: however the threads
  -- interleave, neither the end of the message of the day nor any change of modes on that server has it
  -- send anything.
  pub run-IsQuiet :
      given.servers ≡ server ∷ []
      → server.await_registration_mode ≡ none
      → cook_config credits given ≡ done config
      → run start_env env (done config) path handler modules ≡ running s
      → (w : World) → Reach env (first_world s) w
      → IsQuiet env first w
  run-IsQuiet one no_mode cooked h w r =
      let (ac, servers, known) = started_server one cooked h in
      never_joins env first server (first_world s) known no_mode (rw servers (tt, tt))
        (
          clean (new_server start_env first ac),
          rw (servers, lookup_only first (clean (new_server start_env first ac))) refl,
          refl,
        )
        w r
