-- ===== src/Core/Config.antt =====
-- src/core/config.rs: the configuration, its builder and its validation. Deserialisation is serde's.
pub mod Laws
use Prim.Native.Nat.{◌^◌}
use irc_bot_rs.Base.{
  ℕ, suc, ◌+◌, Bool, true, false, not, Option, none, some, List, [], ◌∷◌, ltb, ◌==◌, if◌then◌else◌,
  length, is_nil,
}
use irc_bot_rs.Text.{Text, codes}
use irc_bot_rs.Util.Regex.{RegexBuilder}
use irc_bot_rs.Core.Err.{
  ServerConfigIndex, Error, excessive_server_config_index, Outcome, done, failed, panicked, ◌>>=◌,
  ◌>>◌,
}

pub record Admin : Type 0 where
  pub nick : Option Text
  pub user : Option Text
  pub host : Option Text

pub record Channel : Type 0 where
  pub name : Text
  pub can_see : Option RegexBuilder
  pub seen_by : Option RegexBuilder

pub record Server : Type 0 where
  pub name : Text
  pub host : Text
  pub port : ℕ
  pub nick_password : Option Text
  pub server_password : Option Text
  pub tls : Bool
  pub channels : List Channel
  pub await_registration_mode : Option ℕ

-- `inner::Config`: what is deserialised, not validated.
pub record InnerConfig : Type 0 where
  pub nickname : Text
  pub username : Text
  pub realname : Text
  pub join_delay : ℕ
  pub admins : List Admin
  pub servers : List Server

-- What the code sets of a configuration of the crate `irc`.
pub record AatxeConfig : Type 0 where
  pub nickname : Option Text
  pub nick_password : Option Text
  pub password : Option Text
  pub username : Option Text
  pub realname : Option Text
  pub server : Option Text
  pub port : Option ℕ
  pub use_ssl : Option Bool

pub record Config : Type 0 where
  pub nickname : Text
  pub username : Text
  pub realname : Text
  pub admins : List Admin
  pub servers : List Server
  pub aatxe_configs : List (ServerConfigIndex × AatxeConfig)
  pub join_delay : ℕ

-- A `ConfigBuilder` wraps a `Result<inner::Config>`.
abbrev pub ConfigBuilder : Type 0
ConfigBuilder = Outcome InnerConfig

-- `inner::Config::default()`
abbrev pub default_config : InnerConfig
default_config = record {
  nickname = [];
  username = [];
  realname = [];
  join_delay = 0;
  admins = [];
  servers = [];
}

unfoldable pub build : ConfigBuilder
build = done default_config

unfoldable pub nickname : Text → ConfigBuilder → ConfigBuilder
nickname name builder =
    if is_nil name
    then failed (Error.config (codes "nickname") (codes "is empty"))
    else do cfg ← builder; done (record cfg { nickname = name })

unfoldable pub username : Text → ConfigBuilder → ConfigBuilder
username name builder = do cfg ← builder; done (record cfg { username = name })

unfoldable pub realname : Text → ConfigBuilder → ConfigBuilder
realname name builder = do cfg ← builder; done (record cfg { realname = name })

abbrev ensure : Bool → Error → Outcome (Unit {0})
ensure true e = done tt
ensure false e = failed e

unfoldable pub validate_config : InnerConfig → Outcome (Unit {0})
validate_config cfg = do
  ensure (not (is_nil cfg.nickname)) (Error.config (codes "nickname") (codes "is empty"))
  ensure (not (is_nil cfg.servers)) (Error.config (codes "servers") (codes "is empty"))
  ensure (length cfg.servers == 1)
      (Error.config (codes "servers") (codes "lists multiple servers, which is not yet supported"))

-- `ServerConfigIndex::try_from`
unfoldable pub try_from : ℕ → Outcome ServerConfigIndex
try_from n =
    if ltb n (2 ^ 16) then done (record { index = n }) else failed (excessive_server_config_index n)

module _ (brief_credits_string : Text) where
  unfoldable pub fill_in_config_defaults : InnerConfig → InnerConfig
  fill_in_config_defaults cfg = record cfg {
    username = if is_nil cfg.username then cfg.nickname else cfg.username;
    realname = if is_nil cfg.realname then brief_credits_string else cfg.realname;
  }

  unfoldable pub aatxe_config : InnerConfig → Server → AatxeConfig
  aatxe_config cfg server = record {
    nickname = some cfg.nickname;
    nick_password = server.nick_password;
    password = server.server_password;
    username = some cfg.username;
    realname = some cfg.realname;
    server = some server.host;
    port = some server.port;
    use_ssl = some server.tls;
  }

  -- The servers from index `i` on.
  unfoldable pub aatxe_configs :
      InnerConfig → ℕ → List Server → Outcome (List (ServerConfigIndex × AatxeConfig))
  unfolding try_from aatxe_config
  aatxe_configs cfg i [] = done []
  aatxe_configs cfg i (server ∷ servers) = do
    idx ← try_from i
    rest ← aatxe_configs cfg (i + 1) servers
    done ((idx, aatxe_config cfg server) ∷ rest)

  unfoldable pub cook_config : InnerConfig → Outcome Config
  unfolding validate_config fill_in_config_defaults aatxe_configs
  cook_config given = do
    validate_config given
    let cfg = fill_in_config_defaults given
    configs ← aatxe_configs cfg 0 cfg.servers
    done (record {
      nickname = cfg.nickname;
      username = cfg.username;
      realname = cfg.realname;
      admins = cfg.admins;
      servers = cfg.servers;
      aatxe_configs = configs;
      join_delay = cfg.join_delay;
    })

  -- `IntoConfig` for a builder.
  unfoldable pub into_config : ConfigBuilder → Outcome Config
  unfolding cook_config
  into_config builder = builder >>= cook_config
