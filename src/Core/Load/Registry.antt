-- ===== src/Core/Load/Registry.antt =====
-- The well-formedness of the registries, and that loading keeps it.
use irc_bot_rs.Base.{
  ◌≡◌, refl, inl, inr, Option, Option-cases, none, some, List, [], ◌∷◌, unwrap_or, All, All-append,
}
use irc_bot_rs.Text.{Text}
use irc_bot_rs.BTree.{lookup, insert, IsSorted}
use irc_bot_rs.BTree.Laws.{IsSorted-update, IsSorted-insert, lookup-update_inv}
use irc_bot_rs.BTree.Keys.{text_ord, priority_ord}
use irc_bot_rs.Core.Err.{Error}
use irc_bot_rs.Core.ModlSys.{
  Handler, Module, ModuleFeature, command, trigger, ModuleLoadMode, TriggerPriority,
}
use irc_bot_rs.Core.State.{State, BotCommand, Trigger}
use irc_bot_rs.Core.Load.{
  bot_command, mk_trigger, clash, force_load_module_feature, load_module_feature, load_features,
  existing_module, load_module, load_modules,
}

-- Entries are in order and stand under their own names; a trigger stands under its priority.
pub record IsRegistry (s : State) : Type 0 where
  pub commands_sorted : IsSorted s.commands
  pub modules_sorted : IsSorted s.modules
  pub triggers_sorted : IsSorted s.triggers
  pub command_names : (k : Text) (c : BotCommand) → lookup k s.commands ≡ some c → c.name ≡ k
  pub module_names : (k : Text) (m : Module) → lookup k s.modules ≡ some m → m.name ≡ k
  pub trigger_priorities :
      (p : TriggerPriority) (ts : List Trigger)
      → lookup p s.triggers ≡ some ts
      → All (λ t. t.priority ≡ p) ts

force-IsRegistry :
    (s : State) (m : Module) (f : ModuleFeature)
    → IsRegistry s
    → IsRegistry (force_load_module_feature s m f)
unfolding force_load_module_feature
force-IsRegistry s m (command f) r = record {
  commands_sorted = IsSorted-insert f.name (bot_command m f) s.commands r.commands_sorted;
  modules_sorted = r.modules_sorted;
  triggers_sorted = r.triggers_sorted;
  command_names = λ k c h.
      unfold insert in
      lookup-update_inv (λ i (d : BotCommand). d.name ≡ i) k f.name (λ _. bot_command m f)
        s.commands c r.commands_sorted refl (r.command_names k) h;
  module_names = r.module_names;
  trigger_priorities = r.trigger_priorities;
}
force-IsRegistry s m (trigger f) r = record {
  commands_sorted = r.commands_sorted;
  modules_sorted = r.modules_sorted;
  triggers_sorted = IsSorted-update f.priority _ s.triggers r.triggers_sorted;
  command_names = r.command_names;
  module_names = r.module_names;
  trigger_priorities = λ p ts h.
      lookup-update_inv (λ q us. All (λ (t : Trigger). t.priority ≡ q) us) p f.priority _ s.triggers
        ts r.triggers_sorted
        (All-append (λ (t : Trigger). t.priority ≡ f.priority)
          (unwrap_or (lookup f.priority s.triggers) []) (mk_trigger m f ∷ [])
          (old_priorities (lookup f.priority s.triggers) (r.trigger_priorities f.priority))
          (refl, tt))
        (r.trigger_priorities p) h;
}
  where
    old_priorities :
        (o : Option (List Trigger))
        → ((ts : List Trigger) → o ≡ some ts → All (λ (t : Trigger). t.priority ≡ f.priority) ts)
        → All (λ (t : Trigger). t.priority ≡ f.priority) (unwrap_or o [])
    old_priorities none h = tt
    old_priorities (some ts) h = h ts refl

feature-IsRegistry :
    (s : State) (m : Module) (f : ModuleFeature) (mode : ModuleLoadMode)
    → IsRegistry s
    → IsRegistry (load_module_feature s m f mode).0
unfolding load_module_feature
feature-IsRegistry s m f mode r = elim (Option-cases (clash s m f mode)) [
  | inl e ↦ rw e (force-IsRegistry s m f r)
  | inr (x, e) ↦ rw e r
]

features-IsRegistry :
    (s : State) (m : Module) (fs : List ModuleFeature) (mode : ModuleLoadMode)
    → IsRegistry s
    → IsRegistry (load_features s m fs mode).0
unfolding load_features
features-IsRegistry s m [] mode r = r
features-IsRegistry s m (f ∷ fs) mode r =
    features-IsRegistry (load_module_feature s m f mode).0 m fs mode
      (feature-IsRegistry s m f mode r)

register-IsRegistry :
    (s : State) (m : Module)
    → IsRegistry s
    → IsRegistry (record s { modules = insert m.name m s.modules })
register-IsRegistry s m r = record {
  commands_sorted = r.commands_sorted;
  modules_sorted = IsSorted-insert m.name m s.modules r.modules_sorted;
  triggers_sorted = r.triggers_sorted;
  command_names = r.command_names;
  module_names = λ k n h.
      unfold insert in
      lookup-update_inv (λ i (x : Module). x.name ≡ i) k m.name (λ _. m) s.modules n
        r.modules_sorted refl (r.module_names k) h;
  trigger_priorities = r.trigger_priorities;
}

module _ (on_load : Handler → State → Option Error) where
  load_module-IsRegistry :
      (s : State) (m : Module) (mode : ModuleLoadMode)
      → IsRegistry s
      → IsRegistry (load_module on_load s m mode).0
  unfolding load_module
  load_module-IsRegistry s m mode r =
      elim (Option-cases (existing_module mode (lookup m.name s.modules))) [
        | inl e ↦ rw e (features-IsRegistry _ m m.features mode (register-IsRegistry s m r))
        | inr (x, e) ↦ rw e r
      ]

  -- Loading any modules in any mode, with errors or without, keeps the registries well formed.
  pub load_modules-IsRegistry :
      (s : State) (ms : List Module) (mode : ModuleLoadMode)
      → IsRegistry s
      → IsRegistry (load_modules on_load s ms mode).0
  unfolding load_modules
  load_modules-IsRegistry s [] mode r = r
  load_modules-IsRegistry s (m ∷ ms) mode r =
      load_modules-IsRegistry (load_module on_load s m mode).0 ms mode
        (load_module-IsRegistry s m mode r)
