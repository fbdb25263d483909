-- ===== src/Core/Err.antt =====
-- src/core/err.rs, and how code that fails or panics is modelled.
use irc_bot_rs.Base.{ℕ, ◌≡◌, refl, Option, none, some}
use irc_bot_rs.Text.{Text}
use irc_bot_rs.Util.Yaml

-- The index of a server in the configuration; a `u16`.
pub record ServerConfigIndex : Type 0 where
  pub index : ℕ

pub record ServerId : Type 0 where
  pub uuid : ℕ
  pub config_idx : ServerConfigIndex

pub record ModuleInfo : Type 0 where
  pub name : Text

pub data ModuleFeatureKind : Type 0 where
  command trigger : ModuleFeatureKind

pub record ModuleFeatureInfo : Type 0 where
  pub name : Text
  pub kind : ModuleFeatureKind

-- Errors of other crates, and values of any type, carry their descriptions.
pub data Error : Type 0 where
  fmt io parse_int rand regex serde_yaml walk_dir : Text → Error
  yaml_util : Yaml.Error → Error
  irc_crate irc_crate_message_parse_error : Text → Error
  module_registry_clash : ModuleInfo → ModuleInfo → Error
  module_feature_registry_clash : ModuleFeatureInfo → ModuleFeatureInfo → Error
  server_registry_clash : ServerId → Error
  config : Text → Text → Error
  thread_spawn_failure : Text → Error
  handler_panic : Text → Text → Text → Error
  nickname_unknown received_msg_has_bad_prefix : Error
  unknown_server : ServerId → Error
  lock_poisoned : Text → Error
  integer_overflow : Text → Error
  excessive_server_config_index : ℕ → Error
  any : Text → Error
  unit : Error

-- What a call comes to: a value, an error that it returns, a panic, or a loop that is still running
-- when the rounds that the model gives it are over.
pub data Outcome {ℓ} (A : Type ℓ) : Type ℓ where
  done : A → Outcome A
  failed : Error → Outcome A
  panicked : Outcome A
  out_of_fuel : Outcome A

infixl 5 ◌>>=◌ ◌>>◌
abbrev pub ◌>>=◌ {ℓ κ} : {A : Type ℓ} {B : Type κ} → Outcome A → (A → Outcome B) → Outcome B
done a >>= f = f a
failed e >>= f = failed e
panicked >>= f = panicked
out_of_fuel >>= f = out_of_fuel

abbrev pub ◌>>◌ {ℓ κ} : {A : Type ℓ} {B : Type κ} → Outcome A → Outcome B → Outcome B
m >> k = m >>= λ _. k

-- `ok_or`
abbrev pub ok_or {ℓ} : {A : Type ℓ} → Option A → Error → Outcome A
ok_or none e = failed e
ok_or (some a) e = done a

pub >>=-eq-done {ℓ κ} :
    {A : Type ℓ} {B : Type κ} (o : Outcome A) (next : A → Outcome B) {y : B}
    → (o >>= next) ≡ done y
    → (x : A) × (o ≡ done x) × (next x ≡ done y)
>>=-eq-done (done x) next e = (x, refl, e)
>>=-eq-done (failed error) next e = cc
>>=-eq-done panicked next e = cc
>>=-eq-done out_of_fuel next e = cc

pub done-injective {ℓ} : {A : Type ℓ} {a b : A} → ◌≡◌ {A = Outcome A} (done a) (done b) → a ≡ b
done-injective h = cc
