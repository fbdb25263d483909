-- ===== src/Core/Start/Servers.antt =====
-- The servers of a bot that has been started from an accepted configuration.
use irc_bot_rs.Base.{
  ◌≡◌, refl, sym, ap, ◌∙◌, inl, inr, false, Bool-cases, Option, Option-cases, List, [], ◌∷◌,
  Result-cases,
}
use irc_bot_rs.Text.{Text}
use irc_bot_rs.BTree.{Map, lookup, insert}
use irc_bot_rs.BTree.Keys.{text_ord, server_id_ord}
use irc_bot_rs.Core.Config.{
  Config, InnerConfig, AatxeConfig, Server as ServerConfig, fill_in_config_defaults, aatxe_config,
  cook_config,
}
use irc_bot_rs.Core.Config.Laws.{cook_config-IsCooked}
use irc_bot_rs.Core.Env.{Env}
use irc_bot_rs.Core.Err.{Error, ServerId, done}
use irc_bot_rs.Core.Load.{
  force_load_module_feature, clash, load_module_feature, load_features, existing_module,
  load_module, load_modules,
}
use irc_bot_rs.Core.ModlSys.{Handler, Module, ModuleFeature, command, trigger, ModuleLoadMode, add}
use irc_bot_rs.Core.State.{State, Server, Lock}
use irc_bot_rs.Core.Start.{
  StartEnv, running, clean, fresh_state, new, new_server, register_servers, connect_servers,
  start_servers, after_errors, load_and_start, run,
}

-- What loading modules leaves alone.
abbrev Fixed : State → Config × Map ServerId (Lock Server)
Fixed s = (s.config, s.servers)

force_load-Fixed :
    (s : State) (m : Module) (f : ModuleFeature) → Fixed (force_load_module_feature s m f) ≡ Fixed s
unfolding force_load_module_feature
force_load-Fixed s m (command f) = refl
force_load-Fixed s m (trigger f) = refl

load_module_feature-Fixed :
    (s : State) (m : Module) (f : ModuleFeature) (mode : ModuleLoadMode)
    → Fixed (load_module_feature s m f mode).0 ≡ Fixed s
unfolding load_module_feature
load_module_feature-Fixed s m f mode = elim (Option-cases (clash s m f mode)) [
  | inl n ↦ rw n (force_load-Fixed s m f)
  | inr (e, y) ↦ rw y refl
]

load_features-Fixed :
    (s : State) (m : Module) (fs : List ModuleFeature) (mode : ModuleLoadMode)
    → Fixed (load_features s m fs mode).0 ≡ Fixed s
unfolding load_features
load_features-Fixed s m [] mode = refl
load_features-Fixed s m (f ∷ fs) mode =
    load_features-Fixed (load_module_feature s m f mode).0 m fs mode
    ∙ load_module_feature-Fixed s m f mode

module _ (on_load : Handler → State → Option Error) where
  load_module-Fixed :
      (s : State) (m : Module) (mode : ModuleLoadMode)
      → Fixed (load_module on_load s m mode).0 ≡ Fixed s
  unfolding load_module
  load_module-Fixed s m mode =
      elim (Option-cases (existing_module mode (lookup m.name s.modules))) [
        | inl n ↦ rw n (load_features-Fixed _ m m.features mode)
        | inr (old, y) ↦ rw y refl
      ]

  load_modules-Fixed :
      (s : State) (ms : List Module) (mode : ModuleLoadMode)
      → Fixed (load_modules on_load s ms mode).0 ≡ Fixed s
  unfolding load_modules
  load_modules-Fixed s [] mode = refl
  load_modules-Fixed s (m ∷ ms) mode =
      load_modules-Fixed (load_module on_load s m mode).0 ms mode ∙ load_module-Fixed s m mode

module _ (start_env : StartEnv) where
  connect_servers-Fixed :
      (servers : Map ServerId (Lock Server)) (s s' : State)
      → connect_servers start_env servers s ≡ running s'
      → Fixed s' ≡ Fixed s
  unfolding connect_servers
  connect_servers-Fixed [] s s' h = let same : s ≡ s' = cc in ap Fixed (sym same)
  connect_servers-Fixed ((id, server) ∷ servers) s s' h = elim (Bool-cases server.poisoned) [
    | inl y ↦ cc (rw y at h)
    | inr n ↦ elim (Option-cases (start_env.connect server.content.aatxe_config)) [
      | inl none_yet ↦ connect_servers-Fixed servers s s' (rw (n, none_yet) at h)
      | inr (client, c) ↦ elim (Bool-cases (start_env.identify client)) [
        | inr refused ↦ connect_servers-Fixed servers s s' (rw (n, c, refused) at h)
        | inl identified ↦ elim (Bool-cases s.aatxe_clients.poisoned) [
          | inl y ↦ cc (rw (n, c, identified, y) at h)
          | inr clients_clean ↦ elim (Option-cases (lookup id s.aatxe_clients.content)) [
            | inr (other, l) ↦ cc (simp (n, c, identified, clients_clean, l) at h)
            | inl free ↦
                connect_servers-Fixed servers
                  (record s {
                    aatxe_clients = record s.aatxe_clients {
                      content = insert id client s.aatxe_clients.content;
                      poisoned = false;
                    };
                  })
                  s' (simp (n, c, identified, clients_clean, free) at h)
          ]
        ]
      ]
    ]
  ]

  -- The one server of a bot that has been started, as the configuration describes it.
  abbrev pub first_id : ServerId
  first_id = record { uuid = start_env.new_uuid 0; config_idx = record { index = 0 } }

  start_servers-running :
      (s s' : State) (ac : AatxeConfig)
      → s.config.aatxe_configs ≡ (record { index = 0 }, ac) ∷ []
      → start_servers start_env s ≡ running s'
      → (s'.config ≡ s.config)
        × (s'.servers ≡ (first_id, clean (new_server start_env first_id ac)) ∷ [])
  unfolding start_servers register_servers lookup insert
  start_servers-running s s' ac c h = elim (Bool-cases start_env.new_reactor) [
    | inr n ↦ cc (rw (c, n) at h)
    | inl y ↦
        let fixed =
          connect_servers-Fixed ((first_id, clean (new_server start_env first_id ac)) ∷ [])
            (record s { servers = (first_id, clean (new_server start_env first_id ac)) ∷ [] }) s'
            (simp (c, y) at h) in
        (ap (λ x. x.0) fixed, ap (λ x. x.1) fixed)
  ]

  load_and_start-running :
      (env : Env) (modules : List Module) (s s' : State)
      → load_and_start start_env env modules s ≡ running s'
      → start_servers start_env (load_modules start_env.on_load s modules add).0 ≡ running s'
  unfolding load_and_start
  load_and_start-running env modules s s' h =
      elim (Option-cases
        (after_errors start_env env (load_modules start_env.on_load s modules add).1)) [
          | inl n ↦ rw n at h
          | inr (msg, y) ↦ cc (rw y at h)
        ]

  -- A bot that has been started from an accepted configuration has that configuration and one server,
  -- the configured one, which has had neither the end of its message of the day nor its registration
  -- mode.
  pub run-servers :
      (env : Env) (credits : Text) (given : InnerConfig) (config : Config) (path : Text)
      (handler : Handler) (modules : List Module) (s : State)
      → cook_config credits given ≡ done config
      → run start_env env (done config) path handler modules ≡ running s
      → (server : ServerConfig) × (given.servers ≡ server ∷ [])
        × (s.config ≡ config)
        × (s.servers
            ≡ (
              first_id,
              clean (
                  new_server start_env first_id
                    (aatxe_config credits (fill_in_config_defaults credits given) server)),
            )
              ∷ [])
  unfolding run new
  run-servers env credits given config path handler modules s cooked h =
      elim (Result-cases start_env.entropy) [
        | inr (e, f) ↦ cc (rw (run, new, f) at h)
        | inl (seed, f) ↦
            let c = cook_config-IsCooked credits given config cooked in
            let s₀ = fresh_state config path handler seed in
            let s₁ = (load_modules start_env.on_load s₀ modules add).0 in
            let loaded = load_modules-Fixed start_env.on_load s₀ modules add in
            let same : s₁.config ≡ config = ap (λ x. x.0) loaded in
            let started = load_and_start-running env modules s₀ s (rw (run, new, f) at h) in
            let (kept, servers) =
              start_servers-running s₁ s
                (aatxe_config credits (fill_in_config_defaults credits given) c.server)
                (ap (λ x. x.aatxe_configs) same ∙ c.one_config) started in
            (c.server, c.one_server, kept ∙ same, servers)
      ]
