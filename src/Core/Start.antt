-- ===== src/Core/Start.antt =====
-- Starting the bot (`State::new` and `run` of src/core/mod.rs).
pub mod Servers
pub mod Joins
use irc_bot_rs.Base.{
  ℕ, ◌+◌, Bool, true, false, Option, none, some, List, [], ◌∷◌, ◌++◌, if◌then◌else◌, on_option,
  Result, ok, err,
}
use irc_bot_rs.Text.{Text, codes, decimal}
use irc_bot_rs.BTree.{Map, lookup, insert}
use irc_bot_rs.BTree.Keys.{server_id_ord}
use irc_bot_rs.Core.Config.{Config, AatxeConfig}
use irc_bot_rs.Core.Env.{Env}
use irc_bot_rs.Core.Err.{
  ServerId, ServerConfigIndex, Error, rand, Outcome, done, failed, panicked, out_of_fuel, ◌>>=◌,
}
use irc_bot_rs.Core.Load.{load_modules}
use irc_bot_rs.Core.ModlSys.{Handler, Module, add}
use irc_bot_rs.Core.Reaction.{ErrorReaction, proceed}
use irc_bot_rs.Core.State.{State, Server, Lock}

-- What starting calls that is not the bot's own code: the seed from the system's entropy, the handlers
-- for loading modules, the random identifiers of servers, in the order in which they are drawn, the
-- initialisation of the reactor, connecting, and sending the identification.
pub record StartEnv : Type 0 where
  pub entropy : Result Text ℕ
  pub on_load : Handler → State → Option Error
  pub new_uuid : ℕ → ℕ
  pub new_reactor : Bool
  pub connect : AatxeConfig → Option ℕ
  pub identify : ℕ → Bool

-- Why `run` returns before the reactor runs; `running` is the state with which it runs.
pub data Start : Type 0 where
  config_failed : Error → Start
  state_failed : Error → Start
  loading_failed : Option Text → Start
  server_clash : Start
  reactor_failed : Start
  client_clash : Start
  start_panicked : Start
  running : State → Start

abbrev pub clean : {A : Type 0} → A → Lock A
clean a = record { content = a; poisoned = false }

-- The state before modules and servers are added.
abbrev pub fresh_state : Config → Text → Handler → ℕ → State
fresh_state config module_data_path error_handler seed = record {
  aatxe_clients = clean [];
  addressee_suffix = codes ": ";
  commands = [];
  config = config;
  error_handler = error_handler;
  module_data_path = module_data_path;
  modules = [];
  msg_prefix =
      clean (record { backing = config.nickname ++ (codes "!" ++ (config.username ++ codes "@")) });
  rng = clean seed;
  servers = [];
  triggers = [];
}

module _ (start_env : StartEnv) where
  -- `State::new`
  unfoldable pub new : Config → Text → Handler → Outcome State
  new config module_data_path error_handler = elim start_env.entropy [
    | ok seed ↦ done (fresh_state config module_data_path error_handler seed)
    | err e ↦ failed (rand e)
  ]

  abbrev socket_addr_string : AatxeConfig → Text
  socket_addr_string c =
      on_option c.server (codes "<unknown hostname>") (λ h. h)
      ++ (codes ":" ++ on_option c.port (codes "<unknown port>") (λ p. decimal p))

  abbrev pub new_server : ServerId → AatxeConfig → Server
  new_server server_id aatxe_config = record {
    id = server_id;
    aatxe_config = aatxe_config;
    socket_addr_string = socket_addr_string aatxe_config;
    motd_finished = false;
    registration_mode_obtained = false;
  }

  -- The loop that registers the servers; the number says how many identifiers have been drawn. A
  -- server that is already there ends it.
  unfoldable pub register_servers :
      ℕ
      → List (ServerConfigIndex × AatxeConfig)
      → Map ServerId (Lock Server)
      → Option (Map ServerId (Lock Server))
  register_servers n [] servers = some servers
  register_servers n ((i, aatxe_config) ∷ configs) servers =
      let server_id : ServerId = record { uuid = start_env.new_uuid n; config_idx = i } in
      let rest =
        register_servers (n + 1) configs
          (insert server_id (clean (new_server server_id aatxe_config)) servers) in
      on_option (lookup server_id servers) rest λ other_server. none

  -- The loop that connects to the servers. A server that cannot be connected to, or identified with,
  -- is passed over.
  unfoldable pub connect_servers : Map ServerId (Lock Server) → State → Start
  connect_servers [] s = running s
  connect_servers ((server_id, server) ∷ servers) s =
      let pass = connect_servers servers s in
      let with_client = λ (client : ℕ). connect_servers servers (record s {
        aatxe_clients = record s.aatxe_clients {
          content = insert server_id client s.aatxe_clients.content;
        };
      }) in
      if server.poisoned
      then start_panicked
      else on_option (start_env.connect server.content.aatxe_config) pass (λ client.
        (if start_env.identify client
          then (if s.aatxe_clients.poisoned
              then start_panicked
              else on_option (lookup server_id s.aatxe_clients.content) (with_client client)
                  λ other_client. client_clash)
          else pass))

  -- What follows once the modules are loaded.
  unfoldable pub start_servers : State → Start
  unfolding register_servers connect_servers
  start_servers s = on_option (register_servers 0 s.config.aatxe_configs []) server_clash λ servers.
      if start_env.new_reactor
      then connect_servers servers (record s { servers = servers })
      else reactor_failed

  -- The errors of loading, in order, until the handler says that the bot is to quit.
  unfoldable pub after_errors : Env → List Error → Option (Option Text)
  after_errors env [] = none
  after_errors env (e ∷ es) =
      let rest = after_errors env es in
      elim (env.run_error_handler e) [ proceed ↦ rest | ErrorReaction.quit msg ↦ some msg ]

  load_and_start : Env → List Module → State → Start
  unfolding after_errors start_servers
  load_and_start env modules s =
      let (s', errs) = load_modules start_env.on_load s modules add in
      on_option (after_errors env errs) (start_servers s') loading_failed

  unfoldable pub run : Env → Outcome Config → Text → Handler → List Module → Start
  unfolding new load_and_start
  run env (failed e) path handler modules = config_failed e
  run env panicked path handler modules = start_panicked
  run env out_of_fuel path handler modules = start_panicked
  run env (done config) path handler modules = elim (new config path handler) [
    | done s ↦ load_and_start env modules s
    | failed e ↦ state_failed e
    | panicked ↦ start_panicked
    | out_of_fuel ↦ start_panicked
  ]
