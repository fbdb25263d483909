-- ===== src/Util/Yaml/Check/Conforms.antt =====
-- `check_type` decides a relation between syntaxes and values.
use irc_bot_rs.Base.{
  ◌≡◌, ◌≢◌, refl, ap, ◌∙◌, ◌⊎◌, inl, inr, true, Bool-cases, Option, none, some, [], ◌∷◌, ◌++◌,
  Result, ok, err, ◌>>=◌, >>=-eq-ok,
}
use irc_bot_rs.Text.{Text}
use irc_bot_rs.Util.Yaml.{
  Yaml, real, integer, string, boolean, array, hash, alias, null, bad_value, Fields, end, field,
  YamlRust, AugmentedTy, Error, required_field_missing, aug_ty_of, any_to_str, get,
}
use irc_bot_rs.Util.Yaml.Check.{
  PathBuf, pop_label, in_brackets, match_types, accepts_any, check_node, check_field,
  check_type_inner, check_field_types,
}

-- Two values that are both scalar or both sequences.
abbrev pub SameShape : AugmentedTy → AugmentedTy → Type 0
SameShape AugmentedTy.scalar AugmentedTy.scalar = Unit
SameShape AugmentedTy.sequence AugmentedTy.sequence = Unit
SameShape _ _ = ⊥

abbrev pub FieldFits : (Yaml → Type 0) → Yaml → Option Yaml → Type 0
FieldFits fits expected (some actual) = fits actual
FieldFits fits (string s) none = in_brackets s ≡ true
FieldFits fits (array xs) none = Unit
FieldFits fits (hash fs) none = fits (hash end)
FieldFits fits _ none = ⊥

abbrev pub MapFits : (Fields → Type 0) → AugmentedTy → Type 0
MapFits fits (AugmentedTy.mapping fs) = fits fs
MapFits fits _ = ⊥

module _ (lib : YamlRust) where
  -- What a syntax accepts: anything, if it is `...` or `[...]`; a scalar for a scalar; a sequence for
  -- a sequence; for a mapping, a mapping in which each expected field fits or may be absent.
  abbrev mutual
    pub Conforms : Yaml → Yaml → Type 0
    Conforms (hash fs) actual =
        (accepts_any lib (hash fs) ≡ true) ⊎ MapFits (FieldsConform fs) (aug_ty_of actual)
    Conforms expected actual =
        (accepts_any lib expected ≡ true) ⊎ SameShape (aug_ty_of expected) (aug_ty_of actual)

    pub FieldsConform : Fields → Fields → Type 0
    FieldsConform end actual = Unit
    FieldsConform (field key expected rest) actual =
        FieldFits (Conforms expected) expected (get lib actual key) × FieldsConform rest actual

pub pop_label-append : (path : PathBuf) (l : Text) → pop_label (path ++ l ∷ []) ≡ path
unfolding pop_label
pop_label-append [] l = refl
pop_label-append (m ∷ []) l = refl
pop_label-append (m ∷ k ∷ path) l = ap (λ p. m ∷ p) (pop_label-append (k ∷ path) l)

abbrev pub Call : Type 0
Call = Fields → PathBuf → Result Error PathBuf

leaf_match :
    (t u : AugmentedTy) (path q : PathBuf)
    → ((fs : Fields) → t ≢ AugmentedTy.mapping fs)
    → match_types (λ _ p. ok p) t u path ≡ ok q
    → (q ≡ path) × SameShape t u
unfolding match_types
leaf_match AugmentedTy.scalar AugmentedTy.scalar path q n h = (cc, tt)
leaf_match AugmentedTy.sequence AugmentedTy.sequence path q n h = (cc, tt)
leaf_match (AugmentedTy.mapping fs) _ path q n h = absurd (n fs refl)
leaf_match AugmentedTy.scalar _ path q n h = cc
leaf_match AugmentedTy.sequence _ path q n h = cc
leaf_match AugmentedTy.other _ path q n h = cc

map_match :
    (P : Fields → Type 0) (fields : Call) (fs : Fields) (u : AugmentedTy) (path q : PathBuf)
    → ((afs : Fields) → fields afs path ≡ ok q → (q ≡ path) × P afs)
    → match_types fields (AugmentedTy.mapping fs) u path ≡ ok q
    → (q ≡ path) × MapFits P u
unfolding match_types
map_match P fields fs AugmentedTy.scalar path q k h = cc
map_match P fields fs AugmentedTy.sequence path q k h = cc
map_match P fields fs (AugmentedTy.mapping afs) path q k h = k afs h
map_match P fields fs AugmentedTy.other path q k h = cc

abbrev pub Inner : Type 0
Inner = Yaml → PathBuf → Text → Result Error PathBuf

module _ (lib : YamlRust) where
  node_inv :
      (fields : Call) (e a : Yaml) (path q : PathBuf) (l : Text)
      → check_node lib fields e a path l ≡ ok q
      → ((q ≡ path) × (accepts_any lib e ≡ true))
        ⊎ ((p : PathBuf) × (match_types fields (aug_ty_of e) (aug_ty_of a) (path ++ l ∷ []) ≡ ok p)
            × (q ≡ pop_label p))
  unfolding check_node
  node_inv fields e a path q l h = elim (Bool-cases (accepts_any lib e)) [
    | inl m ↦ inl (cc (rw m at h), m)
    | inr m ↦
        let (p, k, r) =
          >>=-eq-ok (match_types fields (aug_ty_of e) (aug_ty_of a) (path ++ l ∷ []))
            (λ p. ok (pop_label p)) (rw m at h) in
        inr (p, k, cc)
  ]

  leaf_sound :
      (e a : Yaml) (path q : PathBuf) (l : Text)
      → ((fs : Fields) → aug_ty_of e ≢ AugmentedTy.mapping fs)
      → check_node lib (λ _ p. ok p) e a path l ≡ ok q
      → (q ≡ path) × ((accepts_any lib e ≡ true) ⊎ SameShape (aug_ty_of e) (aug_ty_of a))
  leaf_sound e a path q l n h = elim (node_inv (λ _ p. ok p) e a path q l h) [
    | inl (r, m) ↦ (r, inl m)
    | inr (p, m, r) ↦
        let (s, shape) = leaf_match (aug_ty_of e) (aug_ty_of a) (path ++ l ∷ []) p n m in
        (r ∙ ap pop_label s ∙ pop_label-append path l, inr shape)
  ]

  map_sound :
      (P : Fields → Type 0) (fields : Call) (fs : Fields) (a : Yaml) (path q : PathBuf) (l : Text)
      → ((afs : Fields) (p p' : PathBuf) → fields afs p ≡ ok p' → (p' ≡ p) × P afs)
      → check_node lib fields (hash fs) a path l ≡ ok q
      → (q ≡ path) × ((accepts_any lib (hash fs) ≡ true) ⊎ MapFits P (aug_ty_of a))
  map_sound P fields fs a path q l k h = elim (node_inv fields (hash fs) a path q l h) [
    | inl (r, m) ↦ (r, inl m)
    | inr (p, m, r) ↦
        let (s, fits) =
          map_match P fields fs (aug_ty_of a) (path ++ l ∷ []) p (λ afs. k afs (path ++ l ∷ []) p)
            m in
        (r ∙ ap pop_label s ∙ pop_label-append path l, inr fits)
  ]

  label_inv :
      (inner : Inner) (key a : Yaml) (path q : PathBuf)
      → (any_to_str lib key >>= λ label. inner a path label) ≡ ok q
      → (l : Text) × (inner a path l ≡ ok q)
  label_inv inner key a path q h =
      let (l, _, r) = >>=-eq-ok (any_to_str lib key) (λ label. inner a path label) h in (l, r)

  no_missing :
      {A : Type 0} (key : Yaml) (q : PathBuf)
      → (any_to_str lib key >>= λ name. err (required_field_missing name)) ≡ ok q
      → A
  no_missing key q h =
      let (l, _, r) =
        >>=-eq-ok (any_to_str lib key) (λ name. err (required_field_missing name)) h in
      cc

  field_sound :
      (P : Yaml → Type 0) (inner : Inner) (key e : Yaml) (o : Option Yaml) (path q : PathBuf)
      → ((a : Yaml) (l : Text) → inner a path l ≡ ok q → (q ≡ path) × P a)
      → check_field lib inner key e o path ≡ ok q
      → (q ≡ path) × FieldFits P e o
  unfolding check_field
  field_sound P inner key e (some a) path q k h =
      let (l, r) = label_inv inner key a path q h in k a l r
  field_sound P inner key (string s) none path q k h = elim (Bool-cases (in_brackets s)) [
    | inl m ↦ (cc (rw m at h), m)
    | inr m ↦ no_missing key q (rw m at h)
  ]
  field_sound P inner key (array xs) none path q k h = (cc, tt)
  field_sound P inner key (hash fs) none path q k h =
      let (l, r) = label_inv inner key (hash end) path q h in k (hash end) l r
  field_sound P inner key _ none path q k h = no_missing key q h

  mutual
    unfolding check_type_inner

    pub inner_sound :
        (e a : Yaml) (path q : PathBuf) (l : Text)
        → check_type_inner lib e a path l ≡ ok q
        → (q ≡ path) × Conforms lib e a
    inner_sound (hash fs) a path q l h =
        map_sound (FieldsConform lib fs) (check_field_types lib fs) fs a path q l (fields_sound fs)
          h
    inner_sound (real s) a path q l h = leaf_sound (real s) a path q l (λ fs e. cc) h
    inner_sound (integer n) a path q l h = leaf_sound (integer n) a path q l (λ fs e. cc) h
    inner_sound (string s) a path q l h = leaf_sound (string s) a path q l (λ fs e. cc) h
    inner_sound (boolean b) a path q l h = leaf_sound (boolean b) a path q l (λ fs e. cc) h
    inner_sound (array xs) a path q l h = leaf_sound (array xs) a path q l (λ fs e. cc) h
    inner_sound (alias n) a path q l h = leaf_sound (alias n) a path q l (λ fs e. cc) h
    inner_sound null a path q l h = leaf_sound null a path q l (λ fs e. cc) h
    inner_sound bad_value a path q l h = leaf_sound bad_value a path q l (λ fs e. cc) h

    fields_sound :
        (fs afs : Fields) (path q : PathBuf)
        → check_field_types lib fs afs path ≡ ok q
        → (q ≡ path) × FieldsConform lib fs afs
    fields_sound end afs path q h = (cc, tt)
    fields_sound (field key e rest) afs path q h =
        let (p, m, r) =
          >>=-eq-ok (check_field lib (check_type_inner lib e) key e (get lib afs key) path)
            (λ p. check_field_types lib rest afs p) h in
        let (s, fits) =
          field_sound (Conforms lib e) (check_type_inner lib e) key e (get lib afs key) path p
            (λ a l. inner_sound e a path p l) m in
        let (t, rest_fits) = fields_sound rest afs p q r in (t ∙ s, (fits, rest_fits))
