-- ===== src/Util/Yaml.antt =====
-- src/util/yaml.rs: YAML values and the check of a value against an expected syntax.
pub mod Check
use irc_bot_rs.Base.{
  ℕ, zero, suc, ℤ, ◌+◌, Bool, true, false, ◌&&◌, ◌||◌, Option, none, some, List, [], ◌∷◌, ◌++◌,
  Result, ok, err, ◌>>=◌, length, if◌then◌else◌,
}
use irc_bot_rs.Text.{Text, codes, text_eq, starts_with, ends_with, join, trim_start_text}

-- The value type of the crate `yaml_rust`.
mutual
  pub data Yaml : Type 0 where
    real : Text → Yaml
    integer : ℤ → Yaml
    string : Text → Yaml
    boolean : Bool → Yaml
    array : Items → Yaml
    hash : Fields → Yaml
    alias : ℕ → Yaml
    null : Yaml
    bad_value : Yaml

  pub data Items : Type 0 where
    nil : Items
    cons : Yaml → Items → Items

  pub data Fields : Type 0 where
    end : Fields
    field : Yaml → Yaml → Fields → Fields

-- What the code calls of `yaml_rust`: equality of values (the key equality of its hash maps),
-- `YamlEmitter::dump` in compact form (`none` is an emitter error), and
-- `YamlLoader::load_from_str` (`none` is a scan error).
pub record YamlRust : Type 0 where
  pub beq : Yaml → Yaml → Bool
  pub emit : Yaml → Option Text
  pub load : Text → Option (List Yaml)

pub data Kind : Type 0 where
  scalar sequence mapping nonexhaustive : Kind

pub data AugmentedTy : Type 0 where
  scalar : AugmentedTy
  sequence : AugmentedTy
  mapping : Fields → AugmentedTy
  other : AugmentedTy

pub data Error : Type 0 where
  yaml_emit : Error
  yaml_scan : Error
  no_single_node : ℕ → Error
  required_field_missing : Text → Error
  aliases_not_supported : Error
  type_mismatch : Text → Kind → Kind → Error
  arg_given_by_both_long_and_short_key : Text → Text → Error

abbrev pub kind_from_aug_ty : AugmentedTy → Kind
kind_from_aug_ty AugmentedTy.scalar = Kind.scalar
kind_from_aug_ty AugmentedTy.sequence = Kind.sequence
kind_from_aug_ty (AugmentedTy.mapping fs) = Kind.mapping
kind_from_aug_ty AugmentedTy.other = Kind.nonexhaustive

-- `AugmentedTy::of`
abbrev pub aug_ty_of : Yaml → AugmentedTy
aug_ty_of (real s) = AugmentedTy.scalar
aug_ty_of (integer n) = AugmentedTy.scalar
aug_ty_of (string s) = AugmentedTy.scalar
aug_ty_of (boolean b) = AugmentedTy.scalar
aug_ty_of null = AugmentedTy.scalar
aug_ty_of (array xs) = AugmentedTy.sequence
aug_ty_of (hash fs) = AugmentedTy.mapping fs
aug_ty_of (alias n) = AugmentedTy.other
aug_ty_of bad_value = AugmentedTy.other

-- `Kind::of`
abbrev pub kind_of : Yaml → Kind
kind_of y = kind_from_aug_ty (aug_ty_of y)

abbrev items_list : Items → List Yaml
items_list nil = []
items_list (cons y ys) = y ∷ items_list ys

-- `any_to_seq`, and the iterator of `iter_as_seq` as the list of what it yields.
unfoldable pub iter_as_seq : Option Yaml → List Yaml
iter_as_seq (some (array xs)) = items_list xs
iter_as_seq (some single) = single ∷ []
iter_as_seq none = []

-- `stream.pop()`: the last document, and how many there are before it.
abbrev pop : List Yaml → Option Yaml × ℕ
pop [] = (none, 0)
pop (y ∷ []) = (some y, 0)
pop (y ∷ z ∷ ys) = (let (last, n) = pop (z ∷ ys) in (last, n + 1))

abbrev document_start : Text
document_start = codes "---\n"

stream_node : Option Yaml × ℕ → Result Error (Option Yaml)
stream_node (last, zero) = ok last
stream_node (last, suc n) = err (no_single_node (suc n + 1))

module _ (lib : YamlRust) where
  unfoldable pub any_to_str : Yaml → Result Error Text
  any_to_str (string s) = ok s
  any_to_str y = elim (lib.emit y) [
    | some s ↦ ok (trim_start_text s document_start)
    | none ↦ err yaml_emit
  ]

  unfoldable pub scalar_to_str : Yaml → Text → Result Error Text
  unfolding any_to_str
  scalar_to_str y subject_label = elim (kind_of y) [
    | Kind.scalar ↦ any_to_str y
    | wrong_kind ↦ err (type_mismatch subject_label Kind.scalar wrong_kind)
  ]

  -- `Hash::get`
  unfoldable pub get : Fields → Yaml → Option Yaml
  get end key = none
  get (field k v fs) key = if lib.beq k key then some v else get fs key

  pick_arg : Yaml → Yaml → Option Yaml → Option Yaml → Result Error (Option Yaml)
  unfolding any_to_str
  pick_arg short_key long_key (some v) none = ok (some v)
  pick_arg short_key long_key none (some v) = ok (some v)
  pick_arg short_key long_key (some _) (some _) = do
    long ← any_to_str long_key
    short ← any_to_str short_key
    err (arg_given_by_both_long_and_short_key long short)
  pick_arg short_key long_key none none = ok none

  unfoldable pub get_arg_by_short_or_long_key : Fields → Yaml → Yaml → Result Error (Option Yaml)
  unfolding pick_arg get
  get_arg_by_short_or_long_key args short_key long_key =
      pick_arg short_key long_key (get args short_key) (get args long_key)

  unfoldable pub parse_node : Text → Result Error (Option Yaml)
  unfolding stream_node
  parse_node src = elim (lib.load src) [
    | none ↦ err yaml_scan
    | some stream ↦ stream_node (pop stream)
  ]
