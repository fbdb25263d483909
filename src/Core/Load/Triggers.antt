-- ===== src/Core/Load/Triggers.antt =====
-- What becomes of the triggers when modules are loaded.
use Prim.Native.Nat.{Ordering}
use irc_bot_rs.Base.{
  ◌≡◌, ◌≢◌, refl, sym, ap, ◌∙◌, subst, inl, inr, Bool, true, false, Bool-cases, Option,
  Option-cases, List, [], ◌∷◌, ◌++◌, append_assoc, append-nil, arith, unwrap_or, if◌then◌else◌,
}
use irc_bot_rs.BTree.{Map, lookup, insert, update, IsSorted}
use irc_bot_rs.BTree.Laws.{key_cases, lookup-update_self, lookup-update_ne, IsSorted-update}
use irc_bot_rs.BTree.Keys.{text_ord, priority_ord}
use irc_bot_rs.Core.ModlSys.{
  Handler, add, replace, force, low, Module, ModuleFeature, command, trigger, ModuleLoadMode,
  TriggerPriority,
}
use irc_bot_rs.Core.Err.{Error}
use irc_bot_rs.Core.State.{State, Trigger}
use irc_bot_rs.Core.Load.{
  mk_trigger, clash, existing_feature, force_load_module_feature, load_module_feature,
  load_features, existing_module, load_module,
}

abbrev pub triggers_at : TriggerPriority → State → List Trigger
triggers_at p s = unwrap_or (lookup p s.triggers) []

abbrev pub same_priority : TriggerPriority → TriggerPriority → Bool
same_priority p q = elim (priority_ord.cmp p q) [ Ordering.eq ↦ true | _ ↦ false ]

-- The triggers of a module at one priority, in order.
abbrev pub module_triggers : TriggerPriority → Module → List ModuleFeature → List Trigger
module_triggers p m [] = []
module_triggers p m (command f ∷ fs) = module_triggers p m fs
module_triggers p m (trigger f ∷ fs) =
    let rest = module_triggers p m fs in
    if same_priority p f.priority then mk_trigger m f ∷ rest else rest

same_priority_refl : (p : TriggerPriority) → same_priority p p ≡ true
same_priority_refl p = ground arith

same_priority_ne : (p q : TriggerPriority) → p ≢ q → same_priority p q ≡ false
same_priority_ne p q n = ground arith

triggers-update :
    (p q : TriggerPriority) (t : Trigger) (m : Map TriggerPriority (List Trigger))
    → IsSorted m
    → unwrap_or (lookup p (update q (λ old. unwrap_or old [] ++ t ∷ []) m)) []
      ≡ unwrap_or (lookup p m) [] ++ (if same_priority p q then t ∷ [] else [])
triggers-update p q t m h = elim (key_cases p q) [
  | inl e ↦
      subst
        (λ r.
          unwrap_or (lookup r (update q (λ old. unwrap_or old [] ++ t ∷ []) m)) []
          ≡ unwrap_or (lookup r m) [] ++ (if same_priority r q then t ∷ [] else []))
        (sym e)
        (rw (lookup-update_self q (λ old. unwrap_or old [] ++ t ∷ []) m h, same_priority_refl q))
  | inr n ↦
      rw (lookup-update_ne p q (λ old. unwrap_or old [] ++ t ∷ []) m n, same_priority_ne p q n)
        (sym (append-nil _))
]

feature_triggers :
    (p : TriggerPriority) (s : State) (m : Module) (f : ModuleFeature) (mode : ModuleLoadMode)
    → IsSorted s.triggers
    → IsSorted (load_module_feature s m f mode).0.triggers
      × (triggers_at p (load_module_feature s m f mode).0
          ≡ triggers_at p s ++ module_triggers p m (f ∷ []))
unfolding load_module_feature force_load_module_feature clash
feature_triggers p s m (command f) mode h =
    elim (Option-cases (existing_feature mode m (lookup f.name s.commands))) [
      | inl e ↦ rw e (h, sym (append-nil _))
      | inr (x, e) ↦ rw e (h, sym (append-nil _))
    ]
feature_triggers p s m (trigger f) mode h = (
  IsSorted-update f.priority _ s.triggers h,
  triggers-update p f.priority (mk_trigger m f) s.triggers h,
)

module_triggers_cons :
    (p : TriggerPriority) (m : Module) (f : ModuleFeature) (fs : List ModuleFeature)
    → module_triggers p m (f ∷ fs) ≡ module_triggers p m (f ∷ []) ++ module_triggers p m fs
module_triggers_cons p m (command f) fs = refl
module_triggers_cons p m (trigger f) fs = elim (Bool-cases (same_priority p f.priority)) [
  | inl e ↦ rw e
  | inr e ↦ rw e
]

-- In every mode the triggers among features are added behind those that are there.
load_features-triggers :
    (p : TriggerPriority) (s : State) (m : Module) (fs : List ModuleFeature) (mode : ModuleLoadMode)
    → IsSorted s.triggers
    → triggers_at p (load_features s m fs mode).0 ≡ triggers_at p s ++ module_triggers p m fs
unfolding load_features
load_features-triggers p s m [] mode h = sym (append-nil _)
load_features-triggers p s m (f ∷ fs) mode h =
    let (sorted, here) = feature_triggers p s m f mode h in
    load_features-triggers p (load_module_feature s m f mode).0 m fs mode sorted
    ∙ ap (λ ts. ts ++ module_triggers p m fs) here
    ∙ append_assoc (triggers_at p s) (module_triggers p m (f ∷ [])) (module_triggers p m fs)
    ∙ ap (λ ts. triggers_at p s ++ ts) (sym (module_triggers_cons p m f fs))

load_features-IsSorted :
    (s : State) (m : Module) (fs : List ModuleFeature) (mode : ModuleLoadMode)
    → IsSorted s.triggers
    → IsSorted (load_features s m fs mode).0.triggers
unfolding load_features
load_features-IsSorted s m [] mode h = h
load_features-IsSorted s m (f ∷ fs) mode h =
    load_features-IsSorted (load_module_feature s m f mode).0 m fs mode
      (feature_triggers low s m f mode h).0

module _ (on_load : Handler → State → Option Error) where
  -- The modes that load a module whether or not it is registered.
  load_module-triggers :
      (p : TriggerPriority) (s : State) (m : Module) (mode : ModuleLoadMode)
      → mode ≢ add
      → IsSorted s.triggers
      → IsSorted (load_module on_load s m mode).0.triggers
        × (triggers_at p (load_module on_load s m mode).0
            ≡ triggers_at p s ++ module_triggers p m m.features)
  unfolding load_module existing_module
  load_module-triggers p s m add n h = absurd (n refl)
  load_module-triggers p s m replace n h =
      let s₀ = record s { modules = insert m.name m s.modules } in
      (
        load_features-IsSorted s₀ m m.features replace h,
        load_features-triggers p s₀ m m.features replace h,
      )
  load_module-triggers p s m force n h =
      let s₀ = record s { modules = insert m.name m s.modules } in
      (
        load_features-IsSorted s₀ m m.features force h,
        load_features-triggers p s₀ m m.features force h,
      )

  -- Loading a module, and then the same module again, in a mode other than `Add`, replaces none of
  -- its triggers: at each priority they are there twice, behind those that were there.
  pub load_module_again-triggers :
      (p : TriggerPriority) (s : State) (m : Module) (mode : ModuleLoadMode)
      → mode ≢ add
      → IsSorted s.triggers
      → triggers_at p (load_module on_load (load_module on_load s m mode).0 m mode).0
        ≡ triggers_at p s ++ (module_triggers p m m.features ++ module_triggers p m m.features)
  load_module_again-triggers p s m mode n h =
      let (sorted, once) = load_module-triggers p s m mode n h in
      let (sorted', twice) =
        load_module-triggers p (load_module on_load s m mode).0 m mode n sorted in
      twice
      ∙ ap (λ ts. ts ++ module_triggers p m m.features) once
      ∙ append_assoc (triggers_at p s) (module_triggers p m m.features)
          (module_triggers p m m.features)
