-- ===== src/Core/State.antt =====
-- The state of the bot (src/core/mod.rs) and its accessors (src/core/state.rs).
use irc_bot_rs.Base.{
  ℕ, Bool, true, false, ◌&&◌, Option, none, some, List, any, get_elem?, if◌then◌else◌, on_option,
}
use irc_bot_rs.Text.{Text, codes, text_eq}
use irc_bot_rs.BTree.{Map, keys, lookup}
use irc_bot_rs.BTree.Keys.{text_ord, priority_ord, server_id_ord}
use irc_bot_rs.Util.Yaml.{Yaml}
use irc_bot_rs.Util.Regex.{RegexBuilder}
use irc_bot_rs.Core.Prefix.{MsgPrefix, OwningMsgPrefix, parse, owning_len}
use irc_bot_rs.Core.Err.{
  ServerId, lock_poisoned, unknown_server, nickname_unknown, Outcome, done, failed, ◌>>=◌, ok_or,
}
use irc_bot_rs.Core.Config.{Config, Admin, AatxeConfig, Server as ServerConfig}
use irc_bot_rs.Core.ModlSys.{Module, Handler, BotCmdAuthLvl, TriggerPriority}

-- A lock with its content; `poisoned` says that a thread panicked while it held the lock.
pub record Lock (A : Type 0) : Type 0 where
  pub content : A
  pub poisoned : Bool

pub record BotCommand : Type 0 where
  pub name : Text
  pub provider : Module
  pub auth_lvl : BotCmdAuthLvl
  pub handler : Handler
  pub usage_str : Text
  pub usage_yaml : Yaml
  pub help_msg : Text

pub record Trigger : Type 0 where
  pub name : Text
  pub provider : Module
  pub regex : Lock RegexBuilder
  pub priority : TriggerPriority
  pub handler : Handler
  pub help_msg : Text
  pub uuid : ℕ

pub record Server : Type 0 where
  pub id : ServerId
  pub aatxe_config : AatxeConfig
  pub socket_addr_string : Text
  pub motd_finished : Bool
  pub registration_mode_obtained : Bool

-- A connection is known by a number.
pub record State : Type 0 where
  pub aatxe_clients : Lock (Map ServerId ℕ)
  pub addressee_suffix : Text
  pub commands : Map Text BotCommand
  pub config : Config
  pub error_handler : Handler
  pub module_data_path : Text
  pub modules : Map Text Module
  pub msg_prefix : Lock OwningMsgPrefix
  pub rng : Lock ℕ
  pub servers : Map ServerId (Lock Server)
  pub triggers : Map TriggerPriority (List Trigger)

-- `read_clean`, `write_clean`, `lock_clean`, and the like accesses written out
abbrev pub access : {A : Type 0} → Lock A → Text → Outcome A
access l description = if l.poisoned then failed (lock_poisoned description) else done l.content

unfoldable pub read_msg_prefix : State → ServerId → Outcome OwningMsgPrefix
read_msg_prefix s server_id = access s.msg_prefix (codes "stored message prefix")

unfoldable pub nick : State → ServerId → Outcome Text
unfolding read_msg_prefix
nick s server_id = do
  prefix ← read_msg_prefix s server_id
  ok_or (parse prefix).nick nickname_unknown

unfoldable pub command : State → Text → Option BotCommand
command s name = lookup name s.commands

unfoldable pub command_names : State → List Text
command_names s = keys s.commands

abbrev pub check_admin_cred : Option Text → Option Text → Bool
check_admin_cred (some cdt) (some ctl) = text_eq cdt ctl
check_admin_cred _ none = true
check_admin_cred none (some _) = false

unfoldable pub have_admin : State → MsgPrefix → Bool
have_admin s p =
    any
      (λ (a : Admin).
        check_admin_cred p.nick a.nick
        && check_admin_cred p.user a.user
        && check_admin_cred p.host a.host)
      s.config.admins

-- `read_server` and `write_server`, with the description of a server as a parameter
unfoldable pub read_or_write_server : (ServerId → Text) → State → ServerId → Outcome Server
read_or_write_server describe s server_id =
    on_option (lookup server_id s.servers) (failed (unknown_server server_id))
      λ lock. access lock (describe server_id)

unfoldable pub get_server_config : State → ServerId → Outcome ServerConfig
get_server_config s server_id =
    ok_or (get_elem? s.config.servers server_id.config_idx.index) (unknown_server server_id)

-- `with_aatxe_client`: the connection that the given function is run on
unfoldable pub aatxe_client : State → ServerId → Outcome ℕ
aatxe_client s server_id = do
  clients ← access s.aatxe_clients (codes "the server connections (`aatxe_clients`)")
  ok_or (lookup server_id clients) (unknown_server server_id)

unfoldable pub rng : State → Outcome ℕ
rng s = access s.rng (codes "the central random number generator")

-- `prefix_len` of src/core/irc_comm.rs
unfoldable pub prefix_len : State → ServerId → Outcome ℕ
unfolding read_msg_prefix
prefix_len s server_id = do prefix ← read_msg_prefix s server_id; done (owning_len prefix)
