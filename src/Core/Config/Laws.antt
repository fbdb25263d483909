-- ===== src/Core/Config/Laws.antt =====
-- What a validated configuration promises.
use irc_bot_rs.Base.{
  ◌≡◌, ◌≢◌, refl, sym, ap, ◌∙◌, inl, inr, List, [], ◌∷◌, arith, length, is_nil, Bool-cases,
}
use irc_bot_rs.Text.{Text, codes}
use irc_bot_rs.Core.Err.{
  Error, done, failed, panicked, out_of_fuel, >>=-eq-done, done-injective, ServerConfigIndex,
}
use irc_bot_rs.Core.Config.{
  Server, AatxeConfig, InnerConfig, Config, ConfigBuilder, build, nickname, username, realname,
  validate_config, fill_in_config_defaults, aatxe_config, aatxe_configs, cook_config, into_config,
}

-- What `cook_config` makes of an accepted configuration.
pub record IsCooked (credits : Text) (given : InnerConfig) (cfg : Config) : Type 0 where
  pub server : Server
  pub one_server : given.servers ≡ server ∷ []
  pub has_nickname : given.nickname ≢ []
  pub same_nickname : cfg.nickname ≡ given.nickname
  pub same_servers : cfg.servers ≡ given.servers
  pub same_admins : cfg.admins ≡ given.admins
  pub username_set : cfg.username ≢ []
  pub realname_set : credits ≢ [] → cfg.realname ≢ []
  pub one_config :
      cfg.aatxe_configs
      ≡ (record { index = 0 }, aatxe_config credits (fill_in_config_defaults credits given) server)
        ∷ []

one_of_valid : (servers : List Server) → length servers ≡ 1 → (s : Server) × (servers ≡ s ∷ [])
one_of_valid [] h = cc
one_of_valid (s ∷ []) h = (s, refl)
one_of_valid (s ∷ t ∷ r) h = absurd (omega arith)

servers_valid : (given : InnerConfig) → validate_config given ≡ done tt → length given.servers ≡ 1
unfolding validate_config
servers_valid given h = ground arith

nickname_valid : (given : InnerConfig) → validate_config given ≡ done tt → given.nickname ≢ []
unfolding validate_config
nickname_valid given h e = ground arith

valid :
    (given : InnerConfig) (server : Server)
    → given.nickname ≢ []
    → given.servers ≡ server ∷ []
    → validate_config given ≡ done tt
unfolding validate_config
valid given server hn hs = ground arith

one_configs :
    (credits : Text) (given : InnerConfig) (server : Server)
    → given.servers ≡ server ∷ []
    → aatxe_configs credits (fill_in_config_defaults credits given) 0 given.servers
      ≡ done (
          (
            record { index = 0 },
            aatxe_config credits (fill_in_config_defaults credits given) server,
          )
          ∷ [])
unfolding aatxe_configs
one_configs credits given server hs = rw hs

-- A configuration that is accepted has a nickname and one server, and keeps them and the admins; its
-- user name is not empty, its real name is not empty if the credits are not, and it has the one
-- connection configuration of the server.
pub cook_config-IsCooked :
    (credits : Text) (given : InnerConfig) (cfg : Config)
    → cook_config credits given ≡ done cfg
    → IsCooked credits given cfg
unfolding cook_config
cook_config-IsCooked credits given cfg h =
    let (u, valid, rest) = >>=-eq-done (validate_config given) _ h in
    let (server, one) = one_of_valid given.servers (servers_valid given valid) in
    let (configs, m, e) =
      >>=-eq-done (aatxe_configs credits (fill_in_config_defaults credits given) 0 given.servers) _
        rest in
    let same = sym (done-injective e) in
    record {
      server = server;
      one_server = one;
      has_nickname = nickname_valid given valid;
      same_nickname = ap (λ c. c.nickname) same;
      same_servers = ap (λ c. c.servers) same;
      same_admins = ap (λ c. c.admins) same;
      username_set =
          λ n. ground (arith, nickname_valid given valid, ap (λ (c : Config). c.username) same);
      realname_set = λ n m. ground (arith, ap (λ (c : Config). c.realname) same);
      one_config =
          ap (λ c. c.aatxe_configs) same
          ∙ sym (done-injective (sym (one_configs credits given server one) ∙ m));
    }

-- A configuration with a nickname and one server is accepted.
pub cook_config_accepts :
    (credits : Text) (given : InnerConfig) (server : Server)
    → given.nickname ≢ []
    → given.servers ≡ server ∷ []
    → (cfg : Config) × (cook_config credits given ≡ done cfg)
unfolding cook_config
cook_config_accepts credits given server hn hs =
    let defaults = fill_in_config_defaults credits given in
    let configs : List (ServerConfigIndex × AatxeConfig) =
      (record { index = 0 }, aatxe_config credits defaults server) ∷ [] in
    (
      record {
        nickname = defaults.nickname;
        username = defaults.username;
        realname = defaults.realname;
        admins = defaults.admins;
        servers = defaults.servers;
        aatxe_configs = configs;
        join_delay = defaults.join_delay;
      },
      rw (valid given server hn hs, one_configs credits given server hs),
    )

-- The calls that a builder offers.
pub data BuilderCall : Type 0 where
  set_nickname set_username set_realname : Text → BuilderCall

abbrev pub call : BuilderCall → ConfigBuilder → ConfigBuilder
call (set_nickname s) b = nickname s b
call (set_username s) b = username s b
call (set_realname s) b = realname s b

abbrev pub calls : List BuilderCall → ConfigBuilder
calls [] = build
calls (c ∷ cs) = call c (calls cs)

-- An error, or a configuration without servers.
abbrev NoServers : ConfigBuilder → Type 0
NoServers (done cfg) = cfg.servers ≡ []
NoServers (failed e) = Unit
NoServers _ = ⊥

call-NoServers : (c : BuilderCall) (b : ConfigBuilder) → NoServers b → NoServers (call c b)
unfolding nickname username realname
call-NoServers (set_nickname []) b h = tt
call-NoServers (set_nickname (c ∷ s)) (done cfg) h = h
call-NoServers (set_nickname (c ∷ s)) (failed e) h = tt
call-NoServers (set_nickname (c ∷ s)) panicked h = h
call-NoServers (set_nickname (c ∷ s)) out_of_fuel h = h
call-NoServers (set_username s) (done cfg) h = h
call-NoServers (set_username s) (failed e) h = tt
call-NoServers (set_username s) panicked h = h
call-NoServers (set_username s) out_of_fuel h = h
call-NoServers (set_realname s) (done cfg) h = h
call-NoServers (set_realname s) (failed e) h = tt
call-NoServers (set_realname s) panicked h = h
call-NoServers (set_realname s) out_of_fuel h = h

calls-NoServers : (cs : List BuilderCall) → NoServers (calls cs)
calls-NoServers [] = unfold build in refl
calls-NoServers (c ∷ cs) = call-NoServers c (calls cs) (calls-NoServers cs)

no_server :
    (credits : Text) (cfg : InnerConfig)
    → cfg.servers ≡ []
    → (e : Error) × (into_config credits (done cfg) ≡ failed e)
unfolding into_config validate_config
no_server credits cfg h = elim (Bool-cases (is_nil cfg.nickname)) [
  | inl n ↦ (Error.config (codes "nickname") (codes "is empty"), rw n)
  | inr n ↦ (Error.config (codes "servers") (codes "is empty"), rw (n, h))
]

refused :
    (credits : Text) (b : ConfigBuilder)
    → NoServers b
    → (e : Error) × (into_config credits b ≡ failed e)
unfolding into_config validate_config
refused credits (done cfg) h = no_server credits cfg h
refused credits (failed e) h = (e, refl)
refused credits panicked h = absurd h
refused credits out_of_fuel h = absurd h

-- Whatever calls of the builder are made, its configuration is refused: no call adds a server.
pub into_config_builder :
    (credits : Text) (cs : List BuilderCall)
    → (e : Error) × (into_config credits (calls cs) ≡ failed e)
into_config_builder credits cs = refused credits (calls cs) (calls-NoServers cs)
