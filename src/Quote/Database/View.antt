-- ===== src/Quote/Database/View.antt =====
-- The database as the files that it was loaded from, each with its quotations, without identifiers;
-- and what it means that identifiers, files and counts agree.
use irc_bot_rs.Base.{
  ℕ, zero, suc, ◌+◌, ◌<◌, ◌≤◌, ◌≡◌, refl, ap, subst, inl, inr, false, Bool-cases, Option, some,
  List, [], ◌∷◌, ◌++◌, map, arith, ◌==◌, if◌then◌else◌, length, get_elem?, All,
}
use irc_bot_rs.Text.{Text}
use irc_bot_rs.Util.Regex.{RegexBuilder}
use irc_bot_rs.Quote.{
  Quotation, QuotationFormat, AntiPingTactic, QuotationFileMetadata, QuotationDatabase,
}

-- A quotation without its identifiers.
pub record Content : Type 0 where
  pub format : QuotationFormat
  pub text : Text
  pub tags : List Text
  pub url : Option Text
  pub anti_ping_tactic : AntiPingTactic

pub record FileView : Type 0 where
  pub name : Text
  pub channels : RegexBuilder
  pub quotations : List Content

abbrev pub content_of : Quotation → Content
content_of q = record {
  format = q.format;
  text = q.text;
  tags = q.tags;
  url = q.url;
  anti_ping_tactic = q.anti_ping_tactic;
}

-- The quotations that belong to a file.
abbrev pub contents : ℕ → List Quotation → List Content
contents file_id [] = []
contents file_id (q ∷ qs) =
    let rest = contents file_id qs in if q.file_id == file_id then content_of q ∷ rest else rest

abbrev pub file_view : List Quotation → QuotationFileMetadata → FileView
file_view qs f = record {
  name = f.name;
  channels = f.channels_regex;
  quotations = contents f.file_id qs;
}

abbrev pub view : QuotationDatabase → List FileView
view qdb = map (file_view qdb.quotations) qdb.files

-- The elements are numbered by their places.
abbrev pub Numbered : {A : Type 0} → (A → ℕ) → ℕ → List A → Type 0
Numbered key n [] = Unit {0}
Numbered key n (x ∷ xs) = (key x ≡ n) × Numbered key (n + 1) xs

abbrev pub Counted : List Quotation → QuotationFileMetadata → Type 0
Counted qs f = f.quotation_count ≡ length (contents f.file_id qs)

-- Identifiers are indices, each quotation belongs to a file, and the counts of the files are right.
pub record IsConsistent (qdb : QuotationDatabase) : Type 0 where
  pub ids : Numbered Quotation.id 0 qdb.quotations
  pub file_ids : Numbered QuotationFileMetadata.file_id 0 qdb.files
  pub in_files : All (λ q. q.file_id < length qdb.files) qdb.quotations
  pub counts : All (Counted qdb.quotations) qdb.files

module _ {A : Type 0} (key : A → ℕ) where
  pub Numbered-append :
      (n m : ℕ) (xs ys : List A)
      → m ≡ n + length xs
      → Numbered key n xs
      → Numbered key m ys
      → Numbered key n (xs ++ ys)
  Numbered-append n m [] ys e h k = subst (λ i. Numbered key i ys) (omega (arith, e)) k
  Numbered-append n m (x ∷ xs) ys e (f, h) k =
      (f, Numbered-append (n + 1) m xs ys (omega (arith, e)) h k)

  pub Numbered-get_elem? :
      (n : ℕ) (xs : List A) (i : ℕ) (x : A)
      → Numbered key n xs
      → get_elem? xs i ≡ some x
      → key x ≡ n + i
  Numbered-get_elem? n [] i x h e = cc
  Numbered-get_elem? n (y ∷ xs) zero x (k, h) e =
      let same : y ≡ x = cc in omega (arith, ap key same, k)
  Numbered-get_elem? n (y ∷ xs) (suc i) x (k, h) e =
      omega (arith, Numbered-get_elem? (n + 1) xs i x h e)

  pub Numbered-below :
      (n m : ℕ) (xs : List A) → n + length xs ≤ m → Numbered key n xs → All (λ x. key x < m) xs
  Numbered-below n m [] l h = tt
  Numbered-below n m (x ∷ xs) l (e, h) =
      (omega (arith, e), Numbered-below (n + 1) m xs (omega arith) h)

pub contents-append :
    (i : ℕ) (xs ys : List Quotation) → contents i (xs ++ ys) ≡ contents i xs ++ contents i ys
contents-append i [] ys = refl
contents-append i (x ∷ xs) ys = elim (Bool-cases (x.file_id == i)) [
  | inl y ↦ rw (y, contents-append i xs ys) refl
  | inr n ↦ rw (n, contents-append i xs ys) refl
]

pub contents_other :
    (i : ℕ) (xs : List Quotation) → All (λ q. q.file_id < i) xs → contents i xs ≡ []
contents_other i [] h = refl
contents_other i (x ∷ xs) (l, h) =
    let n : (x.file_id == i) ≡ false = ground arith in rw n (contents_other i xs h)
