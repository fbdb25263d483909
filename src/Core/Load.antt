-- ===== src/Core/Load.antt =====
-- The loading of modules into the state (`impl State` of src/core/modl_sys.rs).
pub mod Registry
pub mod Modes
pub mod Triggers
use irc_bot_rs.Base.{
  ℕ, false, Option, none, some, List, [], ◌∷◌, ◌++◌, unwrap_or, on_option, if◌then◌else◌, is_nil,
}
use irc_bot_rs.Text.{text_eq}
use irc_bot_rs.BTree.{lookup, update, insert}
use irc_bot_rs.BTree.Keys.{text_ord, priority_ord}
use irc_bot_rs.Core.Err.{
  Error, module_registry_clash, module_feature_registry_clash, ModuleFeatureInfo, ModuleFeatureKind,
}
use irc_bot_rs.Core.ModlSys.{
  Handler, Module, ModuleFeature, command, trigger, CommandFeature, TriggerFeature, ModuleLoadMode,
  add, replace, force, feature_dbg_info, module_dbg_info,
}
use irc_bot_rs.Core.State.{State, BotCommand, Trigger, Lock}

abbrev pub bot_command : Module → CommandFeature → BotCommand
bot_command provider f = record {
  name = f.name;
  provider = provider;
  auth_lvl = f.auth_lvl;
  handler = f.handler;
  usage_str = f.usage_str;
  usage_yaml = f.usage_yaml;
  help_msg = f.help_msg;
}

-- The lock around the regex belongs to the feature: it is shared, and clean when it is made.
abbrev pub mk_trigger : Module → TriggerFeature → Trigger
mk_trigger provider f = record {
  name = f.name;
  provider = provider;
  regex = record { content = f.regex; poisoned = false };
  priority = f.priority;
  handler = f.handler;
  help_msg = f.help_msg;
  uuid = f.uuid;
}

unfoldable pub force_load_module_feature : State → Module → ModuleFeature → State
force_load_module_feature s provider (command f) = record s {
  commands = insert f.name (bot_command provider f) s.commands;
}
force_load_module_feature s provider (trigger f) = record s {
  triggers = update f.priority (λ old. unwrap_or old [] ++ mk_trigger provider f ∷ []) s.triggers;
}

abbrev command_dbg_info : BotCommand → ModuleFeatureInfo
command_dbg_info c = record { name = c.name; kind = ModuleFeatureKind.command }

-- The command that keeps a feature from being loaded.
unfoldable pub existing_feature :
    ModuleLoadMode → Module → Option BotCommand → Option ModuleFeatureInfo
existing_feature mode provider none = none
existing_feature force provider (some old) = none
existing_feature replace provider (some old) =
    if text_eq old.provider.name provider.name then none else some (command_dbg_info old)
existing_feature add provider (some old) = some (command_dbg_info old)

unfoldable pub clash : State → Module → ModuleFeature → ModuleLoadMode → Option ModuleFeatureInfo
unfolding existing_feature
clash s provider (command f) mode = existing_feature mode provider (lookup f.name s.commands)
clash s provider (trigger f) mode = none

unfoldable pub load_module_feature :
    State → Module → ModuleFeature → ModuleLoadMode → State × Option Error
unfolding clash force_load_module_feature
load_module_feature s provider feature mode =
    on_option (clash s provider feature mode) (force_load_module_feature s provider feature, none)
      λ existing. (s, some (module_feature_registry_clash existing (feature_dbg_info feature)))

abbrev pub option_list : {A : Type 0} → Option A → List A
option_list none = []
option_list (some a) = a ∷ []

-- The features in order; those that clash are passed over, and their errors are collected.
unfoldable pub load_features :
    State → Module → List ModuleFeature → ModuleLoadMode → State × List Error
unfolding load_module_feature
load_features s provider [] mode = (s, [])
load_features s provider (feature ∷ features) mode =
    let (s', e) = load_module_feature s provider feature mode in
    let (s'', errs) = load_features s' provider features mode in (s'', option_list e ++ errs)

unfoldable pub existing_module : ModuleLoadMode → Option Module → Option Module
existing_module add (some old) = some old
existing_module _ _ = none

-- `on_load` says what a handler for loading returns, given the state.
module _ (on_load : Handler → State → Option Error) where
  -- The first error ends the loop.
  unfoldable pub run_on_load : State → List Handler → List Error
  run_on_load s [] = []
  run_on_load s (h ∷ hs) = let rest = run_on_load s hs in on_option (on_load h s) rest λ e. e ∷ []

  unfoldable pub load_module : State → Module → ModuleLoadMode → State × List Error
  unfolding existing_module load_features run_on_load
  load_module s m mode =
      let s₀ = record s { modules = insert m.name m s.modules } in
      let (s', errs) = load_features s₀ m m.features mode in
      on_option (existing_module mode (lookup m.name s.modules))
        (s', if is_nil errs then run_on_load s' m.on_load else errs)
        λ old. (s, module_registry_clash (module_dbg_info old) (module_dbg_info m) ∷ [])

  -- The errors of all modules, in order; the empty list is success.
  unfoldable pub load_modules : State → List Module → ModuleLoadMode → State × List Error
  unfolding load_module
  load_modules s [] mode = (s, [])
  load_modules s (m ∷ ms) mode =
      let (s', errs) = load_module s m mode in
      let (s'', rest) = load_modules s' ms mode in (s'', errs ++ rest)
