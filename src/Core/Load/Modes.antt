-- ===== src/Core/Load/Modes.antt =====
-- What each loading mode may overwrite.
use irc_bot_rs.Base.{
  ◌≡◌, refl, sym, ap, ◌∙◌, subst, inl, inr, Bool-cases, Option, Option-cases, none, some, List, [],
  ◌∷◌, ◌++◌, All, arith,
}
use irc_bot_rs.Text.{Text, text_eq}
use irc_bot_rs.Text.Laws.{text_eq_iff}
use irc_bot_rs.BTree.{lookup, insert, IsSorted}
use irc_bot_rs.BTree.Laws.{key_cases, lookup-insert_self, lookup-insert_ne, IsSorted-insert}
use irc_bot_rs.BTree.Keys.{text_ord, priority_ord}
use irc_bot_rs.Core.Err.{Error}
use irc_bot_rs.Core.ModlSys.{
  Handler, Module, ModuleFeature, command, trigger, ModuleLoadMode, add, replace, force,
}
use irc_bot_rs.Core.State.{State, BotCommand}
use irc_bot_rs.Core.Load.{
  option_list, bot_command, clash, existing_feature, force_load_module_feature, load_module_feature,
  load_features, existing_module, load_module, load_modules,
}

-- What an invariant of one command entry under a mode has to survive.
module _ (P : State → Type 0) (m : Module) (mode : ModuleLoadMode)
    (kept : (s : State) (f : ModuleFeature)
      → P s
      → clash s m f mode ≡ none
      → P (force_load_module_feature s m f)) where
  feature_keeps : (s : State) (f : ModuleFeature) → P s → P (load_module_feature s m f mode).0
  unfolding load_module_feature
  feature_keeps s f h = elim (Option-cases (clash s m f mode)) [
    | inl e ↦ rw e (kept s f h e)
    | inr (x, e) ↦ rw e h
  ]

  features_keep : (s : State) (fs : List ModuleFeature) → P s → P (load_features s m fs mode).0
  unfolding load_features
  features_keep s [] h = h
  features_keep s (f ∷ fs) h =
      features_keep (load_module_feature s m f mode).0 fs (feature_keeps s f h)

  module_keeps :
      (on_load : Handler → State → Option Error) (s : State)
      → P s
      → P (record s { modules = insert m.name m s.modules })
      → P (load_module on_load s m mode).0
  unfolding load_module
  module_keeps on_load s h h' =
      elim (Option-cases (existing_module mode (lookup m.name s.modules))) [
        | inl e ↦ rw e (features_keep _ m.features h')
        | inr (x, e) ↦ rw e h
      ]

add_keeps_feature :
    (k : Text) (c : BotCommand) (m : Module) (s : State) (f : ModuleFeature)
    → lookup k s.commands ≡ some c
    → clash s m f add ≡ none
    → lookup k (force_load_module_feature s m f).commands ≡ some c
unfolding clash force_load_module_feature
add_keeps_feature k c m s (trigger f) h e = h
add_keeps_feature k c m s (command f) h e = elim (key_cases k f.name) [
  | inl same ↦ absurd (taken (ap (λ i. lookup i s.commands) (sym same) ∙ h) e)
  | inr other ↦ lookup-insert_ne k f.name (bot_command m f) s.commands other ∙ h
]
  where
    taken :
        lookup f.name s.commands ≡ some c
        → existing_feature add m (lookup f.name s.commands) ≡ none
        → ⊥
    taken found free = cc (ap (existing_feature add m) found)

-- Loading modules in mode `Add` leaves every command that is registered as it is.
pub load_modules_add_keeps :
    (on_load : Handler → State → Option Error) (s : State) (ms : List Module) (k : Text)
    (c : BotCommand)
    → lookup k s.commands ≡ some c
    → lookup k (load_modules on_load s ms add).0.commands ≡ some c
unfolding load_modules
load_modules_add_keeps on_load s [] k c h = h
load_modules_add_keeps on_load s (m ∷ ms) k c h =
    load_modules_add_keeps on_load (load_module on_load s m add).0 ms k c (
      module_keeps (λ t. lookup k t.commands ≡ some c) m add (λ t f. add_keeps_feature k c m t f)
        on_load s h h)

-- The module of a registered command has the given name.
abbrev pub ProvidedBy : State → Text → Text → Type 0
ProvidedBy s k name = (c : BotCommand) × (lookup k s.commands ≡ some c) × (c.provider.name ≡ name)

existing_owner :
    (m : Module) (c : BotCommand)
    → existing_feature replace m (some c) ≡ none
    → c.provider.name ≡ m.name
unfolding existing_feature
existing_owner m c h = elim (Bool-cases (text_eq c.provider.name m.name)) [
  | inl e ↦ (text_eq_iff c.provider.name m.name).0 e
  | inr e ↦ cc (rw e at h)
]

replace_keeps_feature :
    (k name : Text) (m : Module) (s : State) (f : ModuleFeature)
    → IsSorted s.commands × ProvidedBy s k name
    → clash s m f replace ≡ none
    → IsSorted (force_load_module_feature s m f).commands
      × ProvidedBy (force_load_module_feature s m f) k name
unfolding clash force_load_module_feature
replace_keeps_feature k name m s (trigger f) h e = h
replace_keeps_feature k name m s (command f) (sorted, (c, found, by)) e = (
  IsSorted-insert f.name (bot_command m f) s.commands sorted,
  elim (key_cases k f.name) [
    | inl same ↦ (
      bot_command m f,
      ap (λ i. lookup i (insert f.name (bot_command m f) s.commands)) same
          ∙ lookup-insert_self f.name (bot_command m f) s.commands sorted,
      sym (owner (ap (λ i. lookup i s.commands) (sym same) ∙ found) e) ∙ by,
    )
    | inr other ↦ (c, lookup-insert_ne k f.name (bot_command m f) s.commands other ∙ found, by)
  ],
)
  where
    owner :
        lookup f.name s.commands ≡ some c
        → existing_feature replace m (lookup f.name s.commands) ≡ none
        → c.provider.name ≡ m.name
    owner found free = existing_owner m c (sym (ap (existing_feature replace m) found) ∙ free)

replace_keeps :
    (on_load : Handler → State → Option Error) (k name : Text) (s : State) (ms : List Module)
    → IsSorted s.commands × ProvidedBy s k name
    → IsSorted (load_modules on_load s ms replace).0.commands
      × ProvidedBy (load_modules on_load s ms replace).0 k name
unfolding load_modules
replace_keeps on_load k name s [] h = h
replace_keeps on_load k name s (m ∷ ms) h =
    replace_keeps on_load k name (load_module on_load s m replace).0 ms (
      module_keeps (λ t. IsSorted t.commands × ProvidedBy t k name) m replace
        (λ t f. replace_keeps_feature k name m t f) on_load s h h)

-- Loading modules in mode `Replace` may replace a registered command only by one whose module has
-- the same name.
pub load_modules_replace_keeps :
    (on_load : Handler → State → Option Error) (s : State) (ms : List Module) (k name : Text)
    → IsSorted s.commands
    → ProvidedBy s k name
    → ProvidedBy (load_modules on_load s ms replace).0 k name
load_modules_replace_keeps on_load s ms k name sorted h =
    (replace_keeps on_load k name s ms (sorted, h)).1

-- A command of the module stands under its name, from this module.
abbrev pub Provided : State → Module → ModuleFeature → Type 0
Provided s m (command f) = (c : BotCommand) × (lookup f.name s.commands ≡ some c) × (c.provider ≡ m)
Provided s m (trigger f) = Unit

force_keeps_feature :
    (g : ModuleFeature) (m : Module) (s : State) (f : ModuleFeature)
    → IsSorted s.commands × Provided s m g
    → clash s m f force ≡ none
    → IsSorted (force_load_module_feature s m f).commands
      × Provided (force_load_module_feature s m f) m g
unfolding force_load_module_feature
force_keeps_feature g m s (trigger f) h e = (h.0, same_commands g h.1)
  where
    same_commands :
        (g : ModuleFeature)
        → Provided s m g
        → Provided (force_load_module_feature s m (trigger f)) m g
    same_commands (command g) h = h
    same_commands (trigger g) h = h
force_keeps_feature (trigger g) m s (command f) h e =
    (IsSorted-insert f.name (bot_command m f) s.commands h.0, tt)
force_keeps_feature (command g) m s (command f) (sorted, (c, found, by)) e = (
  IsSorted-insert f.name (bot_command m f) s.commands sorted,
  elim (key_cases g.name f.name) [
    | inl same ↦ (
      bot_command m f,
      ap (λ i. lookup i (insert f.name (bot_command m f) s.commands)) same
          ∙ lookup-insert_self f.name (bot_command m f) s.commands sorted,
      refl,
    )
    | inr other ↦ (c, lookup-insert_ne g.name f.name (bot_command m f) s.commands other ∙ found, by)
  ],
)

force_clash : (s : State) (m : Module) (f : ModuleFeature) → clash s m f force ≡ none
unfolding clash existing_feature
force_clash s m (command f) = ground arith
force_clash s m (trigger f) = refl

force_step :
    (s : State) (m : Module) (f : ModuleFeature)
    → load_module_feature s m f force ≡ (force_load_module_feature s m f, none)
unfolding load_module_feature
force_step s m f = rw (force_clash s m f)

force_made :
    (s : State) (m : Module) (f : ModuleFeature)
    → IsSorted s.commands
    → IsSorted (force_load_module_feature s m f).commands
      × Provided (force_load_module_feature s m f) m f
unfolding force_load_module_feature
force_made s m (command f) h = (
  IsSorted-insert f.name (bot_command m f) s.commands h,
  (bot_command m f, lookup-insert_self f.name (bot_command m f) s.commands h, refl),
)
force_made s m (trigger f) h = (h, tt)

-- In mode `Force` no feature is refused, and afterwards each command of the module is registered
-- under its name as the module's.
load_features_force :
    (s : State) (m : Module) (fs : List ModuleFeature)
    → IsSorted s.commands
    → ((load_features s m fs force).1 ≡ []) × All (Provided (load_features s m fs force).0 m) fs
unfolding load_features
load_features_force s m [] h = (refl, tt)
load_features_force s m (f ∷ fs) h =
    let (sorted, made) = force_made s m f h in
    let (no_errors, provided) = load_features_force (force_load_module_feature s m f) m fs sorted in
    let kept =
      features_keep (λ t. IsSorted t.commands × Provided t m f) m force
        (λ t g. force_keeps_feature f m t g) (force_load_module_feature s m f) fs (sorted, made) in
    subst
      (λ (r : State × Option Error).
        (option_list r.1 ++ (load_features r.0 m fs force).1 ≡ [])
        × All (Provided (load_features r.0 m fs force).0 m) (f ∷ fs))
      (sym (force_step s m f)) (no_errors, (kept.1, provided))
