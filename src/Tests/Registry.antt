-- ===== src/Tests/Registry.antt =====
-- The configuration of the small bot, and the loading of a module into it.
use irc_bot_rs.Base.{◌≡◌, refl, Option, none, some, List, [], ◌∷◌, ◌++◌}
use irc_bot_rs.Text.{codes}
use irc_bot_rs.BTree.{lookup}
use irc_bot_rs.BTree.Keys.{text_ord}
use irc_bot_rs.Util.Yaml.{hash, end}
use irc_bot_rs.Core.Config.{Config, cook_config, into_config}
use irc_bot_rs.Core.Config.Laws.{set_nickname, calls, cook_config_accepts, into_config_builder}
use irc_bot_rs.Core.Err.{Error, done, failed}
use irc_bot_rs.Core.Load.{load_module, load_modules}
use irc_bot_rs.Core.Load.Modes.{ProvidedBy, load_modules_add_keeps, load_modules_replace_keeps}
use irc_bot_rs.Core.Load.Registry.{IsRegistry, load_modules-IsRegistry}
use irc_bot_rs.Core.Load.Triggers.{triggers_at, module_triggers, load_module_again-triggers}
use irc_bot_rs.Core.ModlSys.{
  Handler, Module, ModuleFeature, command, trigger, add, replace, force, public, low,
}
use irc_bot_rs.Core.State.{State}
use irc_bot_rs.Tests.Data.{state, inner_config, server_config, plain_regex, bot_cmd}

-- A module with a command of a name that is taken, and a trigger.
abbrev features : List ModuleFeature
features =
    command (record {
      name = codes "say";
      usage_str = [];
      usage_yaml = hash end;
      help_msg = [];
      auth_lvl = public;
      handler = 1;
    })
    ∷ trigger (record {
      name = codes "t";
      help_msg = [];
      regex = plain_regex (codes "x");
      handler = 2;
      priority = low;
      uuid = 5;
    })
    ∷ []

abbrev new_module : Module
new_module = record { name = codes "new"; uuid = 2; features = features; on_load = 3 ∷ [] }

abbrev loads : Handler → State → Option Error
loads h s = none

abbrev empty : State
empty = record state { commands = []; modules = []; triggers = [] }

empty-IsRegistry : IsRegistry empty
unfolding lookup
empty-IsRegistry = record {
  commands_sorted = tt;
  modules_sorted = tt;
  triggers_sorted = tt;
  command_names = λ k c h. cc;
  module_names = λ k m h. cc;
  trigger_priorities = λ p ts h. cc;
}

load_modules-IsRegistry_example :
    IsRegistry (load_modules loads empty (new_module ∷ new_module ∷ []) force).0
load_modules-IsRegistry_example =
    load_modules-IsRegistry loads empty (new_module ∷ new_module ∷ []) force empty-IsRegistry

load_modules_add_keeps_example :
    lookup (codes "say") (load_modules loads state (new_module ∷ []) add).0.commands
    ≡ some (bot_cmd (codes "say") public)
unfolding lookup
load_modules_add_keeps_example =
    load_modules_add_keeps loads state (new_module ∷ []) (codes "say")
      (bot_cmd (codes "say") public) refl

load_modules_replace_keeps_example :
    ProvidedBy (load_modules loads state (new_module ∷ []) replace).0 (codes "say") (codes "m")
unfolding lookup
load_modules_replace_keeps_example =
    load_modules_replace_keeps loads state (new_module ∷ []) (codes "say") (codes "m")
      ((refl, tt), (tt, tt)) (bot_cmd (codes "say") public, refl, refl)

load_module_again-triggers_example :
    triggers_at low
      (load_module loads (load_module loads state new_module replace).0 new_module replace).0
    ≡ triggers_at low state
      ++ (module_triggers low new_module new_module.features
          ++ module_triggers low new_module new_module.features)
load_module_again-triggers_example =
    load_module_again-triggers loads low state new_module replace (λ e. cc) ((refl, tt), (tt, tt))

-- The configuration that the small bot is given is accepted.
accepted : (cfg : Config) × (cook_config (codes "credits") inner_config ≡ done cfg)
accepted = cook_config_accepts (codes "credits") inner_config server_config (λ e. cc) refl

into_config_builder_example :
    (e : Error) × (into_config (codes "credits") (calls (set_nickname (codes "bot") ∷ []))
      ≡ failed e)
into_config_builder_example =
    into_config_builder (codes "credits") (set_nickname (codes "bot") ∷ [])
