-- ===== src/Util/Yaml/Check.antt =====
-- `check_type` of src/util/yaml.rs: a value against an expected syntax. The stack `path_buf` is
-- passed on explicitly, so that its pushes and pops are part of the model.
pub mod Conforms
pub mod Complete
use irc_bot_rs.Base.{
  ℕ, Bool, true, false, ◌&&◌, ◌||◌, Option, none, some, List, [], ◌∷◌, ◌++◌, Result, ok, err, ◌>>=◌,
  ◌>>◌, if◌then◌else◌, unwrap_or,
}
use irc_bot_rs.Text.{Text, codes, starts_with, ends_with, join}
use irc_bot_rs.Util.Yaml.{
  Yaml, real, integer, string, boolean, array, hash, alias, null, bad_value, Items, Fields, end,
  field, YamlRust, AugmentedTy, Error, required_field_missing, aliases_not_supported, type_mismatch,
  kind_from_aug_ty, aug_ty_of, any_to_str, get, parse_node,
}

abbrev pub PathBuf : Type 0
PathBuf = List Text

-- `path_buf.pop()`
unfoldable pub pop_label : PathBuf → PathBuf
pop_label [] = []
pop_label (l ∷ []) = []
pop_label (l ∷ m ∷ ls) = l ∷ pop_label (m ∷ ls)

abbrev pub mismatch : AugmentedTy → AugmentedTy → PathBuf → Result Error PathBuf
mismatch e a path =
    err (type_mismatch (join (codes ".") path) (kind_from_aug_ty e) (kind_from_aug_ty a))

-- An absent field is no error if its expected value is a text in square brackets.
abbrev pub in_brackets : Text → Bool
in_brackets s = starts_with s (codes "[") && ends_with s (codes "]")

-- The match on both augmented types; `fields` is the call of `check_field_types`.
unfoldable pub match_types :
    (Fields → PathBuf → Result Error PathBuf)
    → AugmentedTy
    → AugmentedTy
    → PathBuf
    → Result Error PathBuf
match_types fields AugmentedTy.scalar AugmentedTy.scalar path = ok path
match_types fields AugmentedTy.sequence AugmentedTy.sequence path = ok path
match_types fields (AugmentedTy.mapping efs) (AugmentedTy.mapping afs) path = fields afs path
match_types fields AugmentedTy.scalar AugmentedTy.sequence path =
    mismatch AugmentedTy.scalar AugmentedTy.sequence path
match_types fields AugmentedTy.scalar (AugmentedTy.mapping afs) path =
    mismatch AugmentedTy.scalar (AugmentedTy.mapping afs) path
match_types fields AugmentedTy.sequence AugmentedTy.scalar path =
    mismatch AugmentedTy.sequence AugmentedTy.scalar path
match_types fields AugmentedTy.sequence (AugmentedTy.mapping afs) path =
    mismatch AugmentedTy.sequence (AugmentedTy.mapping afs) path
match_types fields (AugmentedTy.mapping efs) AugmentedTy.scalar path =
    mismatch (AugmentedTy.mapping efs) AugmentedTy.scalar path
match_types fields (AugmentedTy.mapping efs) AugmentedTy.sequence path =
    mismatch (AugmentedTy.mapping efs) AugmentedTy.sequence path
match_types fields _ _ path = err aliases_not_supported

module _ (lib : YamlRust) where
  -- `...` and `[...]` accept anything.
  abbrev pub accepts_any : Yaml → Bool
  accepts_any expected =
      lib.beq (string (codes "...")) expected || lib.beq (string (codes "[...]")) expected

  -- The body of `check_type_inner`, over the call of `check_field_types` at its own fields.
  unfoldable pub check_node :
      (Fields → PathBuf → Result Error PathBuf)
      → Yaml
      → Yaml
      → PathBuf
      → Text
      → Result Error PathBuf
  unfolding match_types pop_label
  check_node fields expected actual path label = if accepts_any expected then ok path else do
    path' ← match_types fields (aug_ty_of expected) (aug_ty_of actual) (path ++ label ∷ [])
    ok (pop_label path')

  -- One field of `check_field_types`, over the call of `check_type_inner` at its expected value.
  unfoldable pub check_field :
      (Yaml → PathBuf → Text → Result Error PathBuf)
      → Yaml
      → Yaml
      → Option Yaml
      → PathBuf
      → Result Error PathBuf
  unfolding any_to_str
  check_field inner key expected (some actual) path = do
    label ← any_to_str lib key
    inner actual path label
  check_field inner key (string s) none path =
      if in_brackets s
      then ok path
      else (do name ← any_to_str lib key; err (required_field_missing name))
  check_field inner key (array _) none path = ok path
  check_field inner key (hash _) none path = do
    label ← any_to_str lib key
    inner (hash end) path label
  check_field inner key expected none path = do
    name ← any_to_str lib key
    err (required_field_missing name)

  unfoldable mutual
    pub check_type_inner : Yaml → Yaml → PathBuf → Text → Result Error PathBuf
    check_type_inner (hash fs) actual path label =
        check_node (check_field_types fs) (hash fs) actual path label
    check_type_inner expected actual path label =
        check_node (λ _ path'. ok path') expected actual path label

    pub check_field_types : Fields → Fields → PathBuf → Result Error PathBuf
    check_field_types end actual_fields path = ok path
    check_field_types (field key expected rest) actual_fields path =
        check_field (check_type_inner expected) key expected (get lib actual_fields key) path
        >>= λ path'. check_field_types rest actual_fields path'

  unfoldable pub check_type : Yaml → Yaml → Text → Result Error (Unit {0})
  unfolding check_type_inner
  check_type expected actual subject_label = do
    path ← check_type_inner expected actual [] subject_label
    ok tt

  unfoldable pub parse_and_check_node : Text → Yaml → Text → Yaml → Result Error Yaml
  unfolding parse_node check_type
  parse_and_check_node src expected_syntax subject_label default = do
    parsed ← parse_node lib src
    let node = unwrap_or parsed default
    check_type expected_syntax node subject_label
    ok node
