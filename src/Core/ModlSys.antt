-- ===== src/Core/ModlSys.antt =====
-- src/core/modl_sys.rs: modules, their features and the builder. Handlers are opaque functions in the
-- source; here they are numbers, and what a number does is a parameter where it is run.
use irc_bot_rs.Base.{ℕ, List, [], ◌∷◌, ◌++◌, any, if◌then◌else◌, unwrap_or, ok, err}
use irc_bot_rs.Text.{Text, is_whitespace}
use irc_bot_rs.Util.Yaml.{Yaml, hash, end, YamlRust, parse_node}
use irc_bot_rs.Util.Regex.{RegexBuilder, RegexCrate, mk_case_insensitive_regex}
use irc_bot_rs.Core.Err.{Outcome, done, panicked, ModuleInfo, ModuleFeatureInfo, ModuleFeatureKind}

abbrev pub Handler : Type 0
Handler = ℕ

pub data BotCmdAuthLvl : Type 0 where
  public admin : BotCmdAuthLvl

pub data TriggerPriority : Type 0 where
  minimum low medium high maximum : TriggerPriority

pub data TriggerAttr : Type 0 where
  always_watching : TriggerAttr

pub record CommandFeature : Type 0 where
  pub name : Text
  pub usage_str : Text
  pub usage_yaml : Yaml
  pub help_msg : Text
  pub auth_lvl : BotCmdAuthLvl
  pub handler : Handler

pub record TriggerFeature : Type 0 where
  pub name : Text
  pub help_msg : Text
  pub regex : RegexBuilder
  pub handler : Handler
  pub priority : TriggerPriority
  pub uuid : ℕ

pub data ModuleFeature : Type 0 where
  command : CommandFeature → ModuleFeature
  trigger : TriggerFeature → ModuleFeature

pub record Module : Type 0 where
  pub name : Text
  pub uuid : ℕ
  pub features : List ModuleFeature
  pub on_load : List Handler

pub record ModuleBuilder : Type 0 where
  pub name : Text
  pub features : List ModuleFeature
  pub on_load : List Handler

pub data ModuleLoadMode : Type 0 where
  add replace force : ModuleLoadMode

-- `ModuleFeature::name`
abbrev pub feature_name : ModuleFeature → Text
feature_name (command c) = c.name
feature_name (trigger t) = t.name

-- The implementations of `GetDebugInfo`.
abbrev pub feature_dbg_info : ModuleFeature → ModuleFeatureInfo
feature_dbg_info (command c) = record { name = c.name; kind = ModuleFeatureKind.command }
feature_dbg_info (trigger t) = record { name = t.name; kind = ModuleFeatureKind.trigger }

abbrev pub module_dbg_info : Module → ModuleInfo
module_dbg_info m = record { name = m.name }

unfoldable pub mk_module : Text → ModuleBuilder
mk_module name = record { name = name; features = []; on_load = [] }

-- A name with whitespace fails an assertion; a syntax that does not parse fails an `unwrap`.
unfoldable pub add_command :
    YamlRust → Text → Text → Text → BotCmdAuthLvl → Handler → ModuleBuilder → Outcome ModuleBuilder
add_command lib name syntax help_msg auth_lvl handler b =
    if any is_whitespace name then panicked else elim (parse_node lib syntax) [
      | err e ↦ panicked
      | ok usage ↦ done (record b {
        features =
            b.features
            ++ command (record {
              name = name;
              usage_str = syntax;
              usage_yaml = unwrap_or usage (hash end);
              help_msg = help_msg;
              auth_lvl = auth_lvl;
              handler = handler;
            })
              ∷ [];
      })
    ]

-- The one attribute is unimplemented; a regex that does not build fails an `expect`.
unfoldable pub add_trigger :
    RegexCrate
    → ℕ
    → Text
    → Text
    → Text
    → TriggerPriority
    → Handler
    → List TriggerAttr
    → ModuleBuilder
    → Outcome ModuleBuilder
add_trigger crate uuid name regex_str help_msg priority handler (always_watching ∷ _) b = panicked
add_trigger crate uuid name regex_str help_msg priority handler [] b =
    let regex = mk_case_insensitive_regex regex_str in
    if crate.builds regex
    then done (record b {
      features =
          b.features
          ++ trigger (record {
            name = name;
            help_msg = help_msg;
            regex = regex;
            handler = handler;
            priority = priority;
            uuid = uuid;
          })
            ∷ [];
    })
    else panicked

unfoldable pub add_on_load : Handler → ModuleBuilder → ModuleBuilder
add_on_load handler b = record b { on_load = b.on_load ++ handler ∷ [] }

-- `ModuleBuilder::end`, with the random identifier as an argument
unfoldable pub end_module : ℕ → ModuleBuilder → Module
end_module uuid b = record {
  name = b.name;
  uuid = uuid;
  features = b.features;
  on_load = b.on_load;
}
