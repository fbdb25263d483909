-- ===== src/Tests/Starting.antt =====
-- Starting the small bot, and the module `default`.
use irc_bot_rs.Base.{◌≡◌, refl, none, some, true, List, [], ◌∷◌, All, ok}
use irc_bot_rs.Text.{Text, codes}
use irc_bot_rs.Util.Yaml.{hash, end}
use irc_bot_rs.Core.Config.{Config, InnerConfig, Server as ServerConfig, cook_config}
use irc_bot_rs.Core.Err.{Outcome, done}
use irc_bot_rs.Core.Handler.{HandlerContext}
use irc_bot_rs.Core.ModlSys.{Module}
use irc_bot_rs.Core.Start.{StartEnv, Start, running, fresh_state, run}
use irc_bot_rs.Core.Start.Servers.{first_id}
use irc_bot_rs.Core.Start.Joins.{IsQuiet, first_world, run-IsQuiet}
use irc_bot_rs.Core.Comm.Threads.{here}
use irc_bot_rs.Core.State.{State}
use irc_bot_rs.Modules.Default.Commands.{mk}
use irc_bot_rs.Modules.Default.Safety.{IsSafe, mk-IsSafe}
use irc_bot_rs.Tests.Data.{env, state, inner_config, server_config, plain_module, dest, from}

abbrev debug_list : List Text → Text
debug_list ts = []

-- The module as it is built.
abbrev built : Outcome Module → Module
built (done m) = m
built other = plain_module

abbrev default_module : Module
unfolding mk
default_module = built (mk env debug_list 1 2)

default_module_built : mk env debug_list 1 2 ≡ done default_module
unfolding mk irc_bot_rs.Core.ModlSys.add_command irc_bot_rs.Text.is_whitespace
    irc_bot_rs.Util.Yaml.parse_node irc_bot_rs.Core.ModlSys.add_trigger
default_module_built = refl

abbrev ctx : HandlerContext
ctx = record { state = state; request_origin = dest; invoker = (from (codes "ann")).prefix }

mk-IsSafe_example : All (IsSafe env debug_list ctx (hash end)) default_module.features
mk-IsSafe_example = mk-IsSafe env debug_list 1 2 default_module ctx (hash end) default_module_built

abbrev start_env : StartEnv
start_env = record {
  entropy = ok 5;
  on_load = λ h s. none;
  new_uuid = λ n. n;
  new_reactor = true;
  connect = λ c. some 3;
  identify = λ client. true;
}

abbrev accepted : Outcome Config → Config
accepted (done c) = c
accepted other = state.config

abbrev config : Config
unfolding cook_config
config = accepted (cook_config (codes "credits") inner_config)

abbrev state_of : Start → State
state_of (running s) = s
state_of other = fresh_state config [] 0 0

abbrev started : State
unfolding run
started = state_of (run start_env env (done config) [] 0 [])

-- A server without a mode to wait for
abbrev impatient : ServerConfig
impatient = record server_config { await_registration_mode = none }

abbrev impatient_inner : InnerConfig
impatient_inner = record inner_config { servers = impatient ∷ [] }

abbrev impatient_config : Config
unfolding cook_config
impatient_config = accepted (cook_config (codes "credits") impatient_inner)

impatient_accepted : cook_config (codes "credits") impatient_inner ≡ done impatient_config
unfolding cook_config
impatient_accepted = refl

abbrev impatient_bot : State
unfolding run
impatient_bot = state_of (run start_env env (done impatient_config) [] 0 [])

impatient_started : run start_env env (done impatient_config) [] 0 [] ≡ running impatient_bot
unfolding run irc_bot_rs.Core.Load.load_modules impatient_config irc_bot_rs.BTree.lookup
    irc_bot_rs.BTree.insert
impatient_started = refl

run-IsQuiet_example : IsQuiet env (first_id start_env) (first_world impatient_bot)
run-IsQuiet_example =
    run-IsQuiet start_env env (codes "credits") impatient_inner impatient impatient_config [] 0 []
      impatient_bot refl refl impatient_accepted impatient_started (first_world impatient_bot) here
