-- ===== src/Tests/Data.antt =====
-- A small bot: one server with two channels, an admin, two commands and a trigger, with concrete
-- functions for what the program calls outside.
use irc_bot_rs.Base.{◌+◌, Bool, true, false, none, some, [], ◌∷◌, ok}
use irc_bot_rs.Text.{Text, codes, text_eq, contains}
use irc_bot_rs.Util.Yaml.{Yaml, string, hash, end, YamlRust}
use irc_bot_rs.Util.Regex.{RegexBuilder, RegexCrate}
use irc_bot_rs.Core.Config.{Config, Channel, Server as ServerConfig, InnerConfig}
use irc_bot_rs.Core.Env.{Env}
use irc_bot_rs.Core.Err.{ServerId}
use irc_bot_rs.Core.Irc.{Command, message, MsgDest, MsgMetadata}
use irc_bot_rs.Core.ModlSys.{Module, BotCmdAuthLvl, public, admin, TriggerPriority, low, high}
use irc_bot_rs.Core.PkgInfo.{BuildEnv}
use irc_bot_rs.Core.Reaction.{Reaction, BotCmdResult, proceed}
use irc_bot_rs.Core.State.{State, BotCommand, Trigger, Server}
use irc_bot_rs.Core.World.{World}

abbrev pub server_id : ServerId
server_id = record { uuid = 7; config_idx = record { index = 0 } }

-- Keys are texts; nothing else is compared.
abbrev pub yaml : YamlRust
yaml = record { beq = texts; emit = λ y. some (codes "value"); load = λ t. some (hash end ∷ []) }
  where
    texts : Yaml → Yaml → Bool
    texts (string a) (string b) = text_eq a b
    texts a b = false

abbrev pub regex : RegexCrate
regex = record { builds = λ r. true; is_match = λ r t. contains t r.pattern }

abbrev pub plain_regex : Text → RegexBuilder
plain_regex t = record {
  pattern = t;
  case_insensitive = true;
  size_limit = none;
  dfa_size_limit = none;
}

abbrev pub build : BuildEnv
build = record {
  cargo_pkg_name = some (codes "irc-bot");
  irc_bot_rs_git_version = none;
  cargo_pkg_version = some (codes "0.1");
  cargo_pkg_homepage = some (codes "http://x");
}

-- Both commands quit; triggers answer; sending and starting threads never fails.
abbrev pub env : Env
env = record {
  run_command = λ s c dest who arg. ok (BotCmdResult.ok (Reaction.quit (some c.name)));
  run_trigger = λ s t dest who text. ok (BotCmdResult.ok (Reaction.msg t.name));
  run_error_handler = λ e. proceed;
  rand_iter = λ seed ts. (ts, seed + 1);
  yaml = yaml;
  regex = regex;
  parse_message = λ t. ok (message (Command.other t));
  new_command = λ c args suffix. ok (Command.other c);
  debug = λ t. t;
  debug_quit = λ o. codes "quit";
  display_error = λ e. codes "error";
  display_uuid = λ i. codes "uuid";
  describe_server = λ i. codes "server";
  build = build;
  spawn_error = λ t. none;
  overflow_checks = true;
}

abbrev pub plain_module : Module
plain_module = record { name = codes "m"; uuid = 1; features = []; on_load = [] }

abbrev pub bot_cmd : Text → BotCmdAuthLvl → BotCommand
bot_cmd name lvl = record {
  name = name;
  provider = plain_module;
  auth_lvl = lvl;
  handler = 0;
  usage_str = [];
  usage_yaml = hash end;
  help_msg = [];
}

abbrev pub a_trigger : Text → Text → TriggerPriority → Trigger
a_trigger name pattern priority = record {
  name = name;
  provider = plain_module;
  regex = record { content = plain_regex pattern; poisoned = false };
  priority = priority;
  handler = 0;
  help_msg = [];
  uuid = 0;
}

abbrev pub channel : Text → Channel
channel name = record { name = name; can_see = none; seen_by = none }

abbrev pub server_config : ServerConfig
server_config = record {
  name = codes "s";
  host = codes "irc.example";
  port = 6697;
  nick_password = none;
  server_password = none;
  tls = true;
  channels = channel (codes "#a") ∷ channel (codes "#b") ∷ [];
  await_registration_mode = some b'r';
}

abbrev pub inner_config : InnerConfig
inner_config = record {
  nickname = codes "bot";
  username = [];
  realname = [];
  join_delay = 0;
  admins = record { nick = some (codes "boss"); user = none; host = none } ∷ [];
  servers = server_config ∷ [];
}

abbrev pub config : Config
config = record {
  nickname = inner_config.nickname;
  username = inner_config.nickname;
  realname = [];
  admins = inner_config.admins;
  servers = inner_config.servers;
  aatxe_configs = [];
  join_delay = 0;
}

abbrev pub server : Server
server = record {
  id = server_id;
  aatxe_config = record {
    nickname = none;
    nick_password = none;
    password = none;
    username = none;
    realname = none;
    server = none;
    port = none;
    use_ssl = none;
  };
  socket_addr_string = [];
  motd_finished = false;
  registration_mode_obtained = false;
}

abbrev pub state : State
state = record {
  aatxe_clients = record { content = (server_id, 3) ∷ []; poisoned = false };
  addressee_suffix = codes ": ";
  commands =
      (codes "quit", bot_cmd (codes "quit") admin)
      ∷ (codes "say", bot_cmd (codes "say") public)
      ∷ [];
  config = config;
  error_handler = 0;
  module_data_path = [];
  modules = (codes "m", plain_module) ∷ [];
  msg_prefix = record { content = record { backing = codes "bot!b@h" }; poisoned = false };
  rng = record { content = 0; poisoned = false };
  servers = (server_id, record { content = server; poisoned = false }) ∷ [];
  triggers =
      (low, a_trigger (codes "a") (codes "hi") low ∷ [])
      ∷ (high, a_trigger (codes "b") (codes "hi") high ∷ [])
      ∷ [];
}

abbrev pub world : World
world = record { state = state; outbox = []; connected = true; jobs = [] }

abbrev pub from : Text → MsgMetadata
from nick = record {
  dest = record { server_id = server_id; target = codes "#a" };
  prefix = record { nick = some nick; user = some (codes "u"); host = some (codes "h") };
}

abbrev pub dest : MsgDest
dest = record { server_id = server_id; target = codes "#a" }
