-- ===== src/Core/BotCmd/Laws.antt =====
-- Who may run a command, and what a command may make the bot do.
use irc_bot_rs.Base.{
  ◌≡◌, refl, ◌⊎◌, inl, inr, Bool, Bool-cases, true, false, Option-cases, some, Result, ok, err,
  Result-cases, if◌then◌else◌,
}
use irc_bot_rs.Text.{Text, codes}
use irc_bot_rs.BTree.{lookup}
use irc_bot_rs.BTree.Keys.{text_ord}
use irc_bot_rs.Util.Yaml.{Yaml, hash, end, Error as YamlError}
use irc_bot_rs.Util.Yaml.Check.{parse_and_check_node}
use irc_bot_rs.Core.Env.{Env}
use irc_bot_rs.Core.Irc.{MsgDest, MsgMetadata}
use irc_bot_rs.Core.ModlSys.{BotCmdAuthLvl, public, admin}
use irc_bot_rs.Core.Prefix.{MsgPrefix}
use irc_bot_rs.Core.Reaction.{Reaction, BotCmdResult, unauthorized}
use irc_bot_rs.Core.State.{State, BotCommand, have_admin}
use irc_bot_rs.Core.BotCmd.{
  parse_arg, parsed, handled, filter_quit, user_authorized, quit_refusal, run_found, run,
}

abbrev pub is_quit : BotCmdResult → Bool
is_quit (BotCmdResult.ok (Reaction.quit m)) = true
is_quit r = false

abbrev is_quit_err : Result BotCmdResult Yaml → Bool
is_quit_err (ok a) = false
is_quit_err (err q) = is_quit q

parsed-is_quit : (r : Result YamlError Yaml) → is_quit_err (parsed r) ≡ false
unfolding parsed
parsed-is_quit (ok arg) = refl
parsed-is_quit (err YamlError.yaml_scan) = refl
parsed-is_quit (err e) = refl

filter_quit_public :
    (env : Env) (c : BotCommand) (r : BotCmdResult) → is_quit (filter_quit env c public r) ≡ false
unfolding filter_quit
filter_quit_public env c (BotCmdResult.ok (Reaction.quit m)) = refl
filter_quit_public env c r = refl

filter_quit_admin :
    (env : Env) (c : BotCommand) (lvl : BotCmdAuthLvl) (r : BotCmdResult)
    → is_quit (filter_quit env c lvl r) ≡ true
    → (lvl ≡ admin) × (is_quit r ≡ true)
unfolding filter_quit
filter_quit_admin env c admin r h = (refl, h)
filter_quit_admin env c public r h = absurd (cc (filter_quit_public env c r))

authorized_quit :
    (b : Bool) (r : BotCmdResult) → is_quit (if b then r else unauthorized) ≡ true → b ≡ true
authorized_quit true r h = refl
authorized_quit false r h = cc

authorized_admin :
    (s : State) (lvl : BotCmdAuthLvl) (p : MsgPrefix)
    → lvl ≡ admin
    → user_authorized s lvl p ≡ have_admin s p
unfolding user_authorized
authorized_admin s public p h = absurd cc
authorized_admin s admin p h = refl

may_use :
    (s : State) (lvl : BotCmdAuthLvl) (p : MsgPrefix)
    → (lvl ≡ public) ⊎ (have_admin s p ≡ true)
    → user_authorized s lvl p ≡ true
unfolding user_authorized
may_use s public p h = refl
may_use s admin p (inl h) = absurd cc
may_use s admin p (inr h) = h

run_found_quit :
    (env : Env) (s : State) (c : BotCommand) (args : Text) (md : MsgMetadata)
    → is_quit (run_found env s c args md) ≡ true
    → (c.auth_lvl ≡ admin) × (have_admin s md.prefix ≡ true)
unfolding run_found parse_arg
run_found_quit env s c args md h = elim (Result-cases (parse_arg env c.usage_yaml args)) [
  | inr (q, e) ↦
      let no = rw e at (
        parsed-is_quit
          (parse_and_check_node env.yaml args c.usage_yaml (codes "<argument>") (hash end))) in
      absurd (cc (rw e at h))
  | inl (arg, e) ↦
      let answer = handled c (env.run_command s c md.dest md.prefix arg) in
      let b = user_authorized s c.auth_lvl md.prefix in
      let f = filter_quit_admin env c c.auth_lvl (if b then answer else unauthorized) (rw e at h) in
      (f.0, rw (authorized_admin s c.auth_lvl md.prefix f.0) at (authorized_quit b answer f.1))
]

-- A command answers with the reaction to quit only if it is registered under the name that the message
-- gives, is a command for admins, and the sender of the message is an admin. (A raw message with the
-- command `QUIT` is another reaction.)
pub run_quit :
    (env : Env) (s : State) (name args : Text) (md : MsgMetadata) (r : BotCmdResult)
    → run env s name args md ≡ some r
    → is_quit r ≡ true
    → (c : BotCommand) × (lookup name s.commands ≡ some c)
      × (c.auth_lvl ≡ admin)
      × (have_admin s md.prefix ≡ true)
unfolding run
run_quit env s name args md r h q = elim (Option-cases (lookup name s.commands)) [
  | inl n ↦ cc (rw n at h)
  | inr (c, m) ↦
      let e : run_found env s c args md ≡ r = cc (rw m at h) in
      let a = run_found_quit env s c args md (rw e q) in (c, m, a.0, a.1)
]

-- The sender may use the command.
abbrev pub MayUse : State → BotCommand → MsgPrefix → Type 0
MayUse s c p = (c.auth_lvl ≡ public) ⊎ (have_admin s p ≡ true)

authorized-MayUse :
    (s : State) (c : BotCommand) (p : MsgPrefix)
    → user_authorized s c.auth_lvl p ≡ true
    → MayUse s c p
unfolding user_authorized
authorized-MayUse s c p h = by_level c.auth_lvl h
  where
    by_level :
        (lvl : BotCmdAuthLvl)
        → user_authorized s lvl p ≡ true
        → (lvl ≡ public) ⊎ (have_admin s p ≡ true)
    by_level public h = inl refl
    by_level admin h = inr h

-- The handlers of commands, and a bot with others.
abbrev pub Handlers : Type 0
Handlers = State → BotCommand → MsgDest → MsgPrefix → Yaml → Result Text BotCmdResult

abbrev pub with_handlers : Env → Handlers → Env
with_handlers env handlers = record env { run_command = handlers }

run_found_handlers :
    (env : Env) (handlers : Handlers) (s : State) (c : BotCommand) (args : Text) (md : MsgMetadata)
    → ((arg : Yaml)
        → MayUse s c md.prefix
        → handlers s c md.dest md.prefix arg ≡ env.run_command s c md.dest md.prefix arg)
    → run_found (with_handlers env handlers) s c args md ≡ run_found env s c args md
unfolding run_found parse_arg filter_quit quit_refusal
run_found_handlers env handlers s c args md same =
    elim (Result-cases (parse_arg env c.usage_yaml args)) [
      | inr (q, e) ↦ rw e refl
      | inl (arg, e) ↦ elim (Bool-cases (user_authorized s c.auth_lvl md.prefix)) [
        | inr n ↦ rw (e, n) refl
        | inl y ↦ rw (e, y, same arg (authorized-MayUse s c md.prefix y)) refl
      ]
    ]

-- What a message has a command answer depends on no handler of a command that its sender may not use:
-- a bot whose handlers differ in those only gives the same answer to every message.
pub run_handlers :
    (env : Env) (handlers : Handlers) (s : State) (name args : Text) (md : MsgMetadata)
    → ((c : BotCommand) (arg : Yaml)
        → MayUse s c md.prefix
        → handlers s c md.dest md.prefix arg ≡ env.run_command s c md.dest md.prefix arg)
    → run (with_handlers env handlers) s name args md ≡ run env s name args md
unfolding run
run_handlers env handlers s name args md same = elim (Option-cases (lookup name s.commands)) [
  | inl n ↦ rw n refl
  | inr (c, m) ↦ rw (m, run_found_handlers env handlers s c args md (same c)) refl
]

-- A command that the sender may use runs its handler on the argument that was accepted, and passes
-- on its result, a panic as an error; only a `quit` of a command for everybody is replaced.
run_authorized :
    (env : Env) (s : State) (name args : Text) (md : MsgMetadata) (c : BotCommand) (arg : Yaml)
    → lookup name s.commands ≡ some c
    → (c.auth_lvl ≡ public) ⊎ (have_admin s md.prefix ≡ true)
    → parse_arg env c.usage_yaml args ≡ ok arg
    → run env s name args md
      ≡ some (filter_quit env c c.auth_lvl (handled c (env.run_command s c md.dest md.prefix arg)))
unfolding run run_found
run_authorized env s name args md c arg m h e = rw (m, e, may_use s c.auth_lvl md.prefix h) refl
