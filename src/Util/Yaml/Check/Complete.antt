-- ===== src/Util/Yaml/Check/Complete.antt =====
-- What `check_type` accepts and refuses, and what becomes of the path that it is given.
use irc_bot_rs.Base.{
  ◌≡◌, refl, ap, ◌⊎◌, inl, inr, true, Bool-cases, Option, none, some, [], ◌∷◌, ◌++◌, ok, >>=-eq-ok,
}
use irc_bot_rs.Text.{Text}
use irc_bot_rs.Util.Yaml.{
  Yaml, real, integer, string, boolean, array, hash, alias, null, bad_value, Fields, end, field,
  YamlRust, AugmentedTy, aug_ty_of, any_to_str, get,
}
use irc_bot_rs.Util.Yaml.Check.{
  PathBuf, match_types, accepts_any, check_node, check_field, check_type_inner, check_field_types,
  check_type,
}
use irc_bot_rs.Util.Yaml.Check.Conforms.{
  Conforms, FieldsConform, inner_sound, Call, FieldFits, Inner, MapFits, SameShape,
  pop_label-append,
}

-- Every key of the syntax can be printed, as the error messages and paths need.
module _ (lib : YamlRust) where
  abbrev mutual
    pub Printable : Yaml → Type 0
    Printable (hash fs) = PrintableFields fs
    Printable _ = Unit

    pub PrintableFields : Fields → Type 0
    PrintableFields end = Unit
    PrintableFields (field key e rest) =
        ((l : Text) × (any_to_str lib key ≡ ok l)) × Printable e × PrintableFields rest

  leaf_match_ok :
      (fields : Call) (t u : AugmentedTy) (path : PathBuf)
      → SameShape t u
      → match_types fields t u path ≡ ok path
  unfolding match_types
  leaf_match_ok fields AugmentedTy.scalar AugmentedTy.scalar path h = refl
  leaf_match_ok fields AugmentedTy.sequence AugmentedTy.sequence path h = refl
  leaf_match_ok fields (AugmentedTy.mapping fs) u path h = absurd h
  leaf_match_ok fields AugmentedTy.other u path h = absurd h
  leaf_match_ok fields AugmentedTy.scalar _ path h = absurd h
  leaf_match_ok fields AugmentedTy.sequence _ path h = absurd h

  map_match_ok :
      (P : Fields → Type 0) (fields : Call) (fs : Fields) (u : AugmentedTy) (path : PathBuf)
      → ((afs : Fields) → P afs → fields afs path ≡ ok path)
      → MapFits P u
      → match_types fields (AugmentedTy.mapping fs) u path ≡ ok path
  unfolding match_types
  map_match_ok P fields fs (AugmentedTy.mapping afs) path k h = k afs h
  map_match_ok P fields fs AugmentedTy.scalar path k h = absurd h
  map_match_ok P fields fs AugmentedTy.sequence path k h = absurd h
  map_match_ok P fields fs AugmentedTy.other path k h = absurd h

  node_ok :
      (fields : Call) (e a : Yaml) (path : PathBuf) (l : Text)
      → (accepts_any lib e ≡ true)
        ⊎ (match_types fields (aug_ty_of e) (aug_ty_of a) (path ++ l ∷ []) ≡ ok (path ++ l ∷ []))
      → check_node lib fields e a path l ≡ ok path
  unfolding check_node
  node_ok fields e a path l (inl m) = rw m
  node_ok fields e a path l (inr m) = elim (Bool-cases (accepts_any lib e)) [
    | inl k ↦ rw k
    | inr k ↦ rw (k, m) (ap ok (pop_label-append path l))
  ]

  leaf_complete :
      (e a : Yaml) (path : PathBuf) (l : Text)
      → (accepts_any lib e ≡ true) ⊎ SameShape (aug_ty_of e) (aug_ty_of a)
      → check_node lib (λ _ p. ok p) e a path l ≡ ok path
  leaf_complete e a path l (inl m) = node_ok (λ _ p. ok p) e a path l (inl m)
  leaf_complete e a path l (inr m) =
      node_ok (λ _ p. ok p) e a path l
        (inr (leaf_match_ok _ (aug_ty_of e) (aug_ty_of a) (path ++ l ∷ []) m))

  map_complete :
      (P : Fields → Type 0) (fields : Call) (fs : Fields) (a : Yaml) (path : PathBuf) (l : Text)
      → ((afs : Fields) (p : PathBuf) → P afs → fields afs p ≡ ok p)
      → (accepts_any lib (hash fs) ≡ true) ⊎ MapFits P (aug_ty_of a)
      → check_node lib fields (hash fs) a path l ≡ ok path
  map_complete P fields fs a path l k (inl m) = node_ok fields (hash fs) a path l (inl m)
  map_complete P fields fs a path l k (inr m) = node_ok fields (hash fs) a path l (
      inr
        (map_match_ok P fields fs (aug_ty_of a) (path ++ l ∷ []) (λ afs. k afs (path ++ l ∷ [])) m))

  field_complete :
      (P : Yaml → Type 0) (inner : Inner) (key e : Yaml) (o : Option Yaml) (path : PathBuf)
      (l : Text)
      → any_to_str lib key ≡ ok l
      → ((a : Yaml) → P a → inner a path l ≡ ok path)
      → FieldFits P e o
      → check_field lib inner key e o path ≡ ok path
  unfolding check_field
  field_complete P inner key e (some a) path l p k h = rw p (k a h)
  field_complete P inner key (string s) none path l p k h = rw h
  field_complete P inner key (array xs) none path l p k h = refl
  field_complete P inner key (hash fs) none path l p k h = rw p (k (hash end) h)
  field_complete P inner key _ none path l p k h = absurd h

  mutual
    unfolding check_type_inner

    inner_complete :
        (e a : Yaml) (path : PathBuf) (l : Text)
        → Printable e
        → Conforms lib e a
        → check_type_inner lib e a path l ≡ ok path
    inner_complete (hash fs) a path l p h =
        map_complete (FieldsConform lib fs) (check_field_types lib fs) fs a path l
          (λ afs q. fields_complete fs afs q p) h
    inner_complete (real s) a path l p h = leaf_complete (real s) a path l h
    inner_complete (integer n) a path l p h = leaf_complete (integer n) a path l h
    inner_complete (string s) a path l p h = leaf_complete (string s) a path l h
    inner_complete (boolean b) a path l p h = leaf_complete (boolean b) a path l h
    inner_complete (array xs) a path l p h = leaf_complete (array xs) a path l h
    inner_complete (alias n) a path l p h = leaf_complete (alias n) a path l h
    inner_complete null a path l p h = leaf_complete null a path l h
    inner_complete bad_value a path l p h = leaf_complete bad_value a path l h

    fields_complete :
        (fs afs : Fields) (path : PathBuf)
        → PrintableFields fs
        → FieldsConform lib fs afs
        → check_field_types lib fs afs path ≡ ok path
    fields_complete end afs path p h = refl
    fields_complete (field key e rest) afs path ((l, m), p, ps) (h, hs) =
        rw
          (field_complete (Conforms lib e) (check_type_inner lib e) key e (get lib afs key) path l m
            (λ a. inner_complete e a path l p) h)
          (fields_complete rest afs path ps hs)

  -- The check accepts only what conforms to the syntax, whatever its label.
  pub check_type_sound :
      (expected actual : Yaml) (label : Text)
      → check_type lib expected actual label ≡ ok tt
      → Conforms lib expected actual
  unfolding check_type
  check_type_sound e a l h =
      let (q, m, _) = >>=-eq-ok (check_type_inner lib e a [] l) (λ _. ok tt) h in
      (inner_sound lib e a [] q l m).1

  -- The check accepts all that conforms to a syntax whose keys can be printed.
  pub check_type_complete :
      (expected actual : Yaml) (label : Text)
      → Printable expected
      → Conforms lib expected actual
      → check_type lib expected actual label ≡ ok tt
  unfolding check_type
  check_type_complete e a l p h = rw (inner_complete e a [] l p h)
