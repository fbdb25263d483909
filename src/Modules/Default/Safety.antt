-- ===== src/Modules/Default/Safety.antt =====
-- What the public commands of the module `default` cannot do.
use irc_bot_rs.Base.{
  ℕ, ◌≡◌, subst, inl, inr, ◌&&◌, Bool-cases, Option, none, some, List, [], any, All, All-append,
  is_some, unwrap_or, Result-cases,
}
use irc_bot_rs.Text.{Text, codes, text_eq, is_whitespace}
use irc_bot_rs.Util.Regex.{RegexCrate, mk_case_insensitive_regex}
use irc_bot_rs.Util.Yaml.{Yaml, hash, end, YamlRust, parse_node}
use irc_bot_rs.Core.Env.{Env}
use irc_bot_rs.Core.Err.{Outcome, done, >>=-eq-done, done-injective}
use irc_bot_rs.Core.Handler.{HandlerContext}
use irc_bot_rs.Core.ModlSys.{
  Module, ModuleBuilder, ModuleFeature, command, trigger, TriggerFeature, Handler, BotCmdAuthLvl,
  public, admin, TriggerPriority, minimum, mk_module, add_command, add_trigger, end_module,
}
use irc_bot_rs.Core.Reaction.{Reaction, BotCmdResult}
use irc_bot_rs.Core.State.{State, BotCommand}
use irc_bot_rs.Modules.Default.{help_by, help_command, help_list, help, get_in, text_of}
use irc_bot_rs.Modules.Default.Commands.{run_handler, mk}

-- Messages to whoever asked, and nothing else.
abbrev IsMessage : Reaction → Type 0
IsMessage (Reaction.msg t) = Unit
IsMessage (Reaction.msgs ts) = Unit
IsMessage (Reaction.reply t) = Unit
IsMessage (Reaction.replies ts) = Unit
IsMessage Reaction.nothing = Unit
IsMessage (Reaction.raw_msg t) = ⊥
IsMessage (Reaction.quit t) = ⊥

-- What holds of a command only if anyone may use it.
abbrev IfPublic : BotCmdAuthLvl → Type 0 → Type 0
IfPublic public P = P
IfPublic admin P = Unit

abbrev pub IsHarmless : Outcome BotCmdResult → Type 0
IsHarmless (done (BotCmdResult.ok r)) = IsMessage r
IsHarmless other = Unit

module _ (P : ModuleFeature → Type 0) where
  add_command-All :
      (lib : YamlRust) (name syntax help_msg : Text) (lvl : BotCmdAuthLvl) (h : Handler)
      (b b' : ModuleBuilder)
      → ((usage : Yaml)
          → P (
              command (record {
                name = name;
                usage_str = syntax;
                usage_yaml = usage;
                help_msg = help_msg;
                auth_lvl = lvl;
                handler = h;
              })))
      → All P b.features
      → add_command lib name syntax help_msg lvl h b ≡ done b'
      → All P b'.features
  unfolding add_command
  add_command-All lib name syntax help_msg lvl h b b' p a e =
      elim (Bool-cases (any is_whitespace name)) [
        | inl y ↦ cc (rw y at e)
        | inr n ↦ elim (Result-cases (parse_node lib syntax)) [
          | inr (failure, f) ↦ cc (rw (add_command, n, f) at e)
          | inl (usage, f) ↦
              let same = done-injective (rw (add_command, n, f) at e) in
              subst (λ (x : ModuleBuilder). All P x.features) same
                (All-append P b.features _ a (p (unwrap_or usage (hash end)), tt))
        ]
      ]

  add_trigger-All :
      (crate : RegexCrate) (uuid : ℕ) (name regex_str help_msg : Text) (priority : TriggerPriority)
      (h : Handler) (b b' : ModuleBuilder)
      → ((t : TriggerFeature) → P (trigger t))
      → All P b.features
      → add_trigger crate uuid name regex_str help_msg priority h [] b ≡ done b'
      → All P b'.features
  unfolding add_trigger
  add_trigger-All crate uuid name regex_str help_msg priority h b b' p a e =
      elim (Bool-cases (crate.builds (mk_case_insensitive_regex regex_str))) [
        | inr n ↦ cc (rw n at e)
        | inl y ↦
            let same = done-injective (rw y at e) in
            subst (λ (x : ModuleBuilder). All P x.features) same
              (All-append P b.features _ a (p _, tt))
      ]

module _ (env : Env) (debug_list : List Text → Text) where
  help_command-IsMessage :
      (cmd_name : Text) (c : Option BotCommand) → IsMessage (help_command env debug_list cmd_name c)
  unfolding help_command
  help_command-IsMessage cmd_name none = tt
  help_command-IsMessage cmd_name (some c) = tt

  help_list-IsMessage :
      (s : State) (list_name : Text) → IsMessage (help_list env debug_list s list_name)
  unfolding help_list
  help_list-IsMessage s list_name = elim (Bool-cases (text_eq list_name (codes "commands"))) [
    | inl y ↦ rw y tt
    | inr n ↦ elim (Bool-cases (text_eq list_name (codes "lists"))) [
      | inl y ↦ rw (n, y) tt
      | inr n' ↦ rw (n, n') tt
    ]
  ]

  help_by-IsMessage :
      (s : State) (cmd list : Option Text) → IsMessage (help_by env debug_list s cmd list)
  unfolding help_by
  help_by-IsMessage s (some cmd_name) list =
      help_command-IsMessage cmd_name (irc_bot_rs.Core.State.command s cmd_name)
  help_by-IsMessage s none (some list_name) = help_list-IsMessage s list_name
  help_by-IsMessage s none none = tt

  help-IsHarmless : (s : State) (arg : Yaml) → IsHarmless (done (help env debug_list s arg))
  unfolding help
  help-IsHarmless s arg =
      elim (Bool-cases (
        is_some (get_in env debug_list arg (codes "cmd"))
        && is_some (get_in env debug_list arg (codes "list")))) [
          | inl y ↦ rw y tt
          | inr n ↦ rw n (
              help_by-IsMessage s (text_of (get_in env debug_list arg (codes "cmd")))
                (text_of (get_in env debug_list arg (codes "list"))))
        ]

  -- A command that anyone may use only answers with messages.
  abbrev pub IsSafe : HandlerContext → Yaml → ModuleFeature → Type 0
  IsSafe ctx arg (command f) =
      IfPublic f.auth_lvl (IsHarmless (run_handler env debug_list f.handler ctx arg))
  IsSafe ctx arg (trigger t) = Unit

  -- The commands of the module `default` that anyone may use answer only with messages, whatever their
  -- argument: they have the bot neither quit nor send a line of their own.
  pub mk-IsSafe :
      (uuid trigger_uuid : ℕ) (m : Module) (ctx : HandlerContext) (arg : Yaml)
      → mk env debug_list uuid trigger_uuid ≡ done m
      → All (IsSafe ctx arg) m.features
  unfolding mk run_handler mk_module end_module
  mk-IsSafe uuid trigger_uuid m ctx arg h =
      let (b0, e0, h0) = >>=-eq-done (add_command env.yaml _ _ _ admin 0 _) _ h in
      let (b1, e1, h1) = >>=-eq-done (add_command env.yaml _ _ _ admin 1 b0) _ h0 in
      let (b2, e2, h2) = >>=-eq-done (add_command env.yaml _ _ _ admin 2 b1) _ h1 in
      let (b3, e3, h3) = >>=-eq-done (add_command env.yaml _ _ _ public 3 b2) _ h2 in
      let (b4, e4, h4) = >>=-eq-done (add_command env.yaml _ _ _ public 4 b3) _ h3 in
      let (b5, e5, h5) = >>=-eq-done (add_command env.yaml _ _ _ public 5 b4) _ h4 in
      let (b6, e6, h6) =
        >>=-eq-done (add_trigger env.regex trigger_uuid _ _ _ minimum _ [] b5) _ h5 in
      let a0 = add_command-All (IsSafe ctx arg) env.yaml _ _ _ admin 0 _ b0 (λ usage. tt) tt e0 in
      let a1 = add_command-All (IsSafe ctx arg) env.yaml _ _ _ admin 1 b0 b1 (λ usage. tt) a0 e1 in
      let a2 = add_command-All (IsSafe ctx arg) env.yaml _ _ _ admin 2 b1 b2 (λ usage. tt) a1 e2 in
      let a3 = add_command-All (IsSafe ctx arg) env.yaml _ _ _ public 3 b2 b3 (λ usage. tt) a2 e3 in
      let a4 = add_command-All (IsSafe ctx arg) env.yaml _ _ _ public 4 b3 b4 (λ usage. tt) a3 e4 in
      let a5 =
        add_command-All (IsSafe ctx arg) env.yaml _ _ _ public 5 b4 b5
          (λ usage. help-IsHarmless ctx.state arg) a4 e5 in
      let a6 =
        add_trigger-All (IsSafe ctx arg) env.regex trigger_uuid _ _ _ minimum _ b5 b6 (λ t. tt) a5
          e6 in
      subst (λ (x : Module). All (IsSafe ctx arg) x.features) (done-injective h6) a6
