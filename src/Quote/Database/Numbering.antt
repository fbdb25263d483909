-- ===== src/Quote/Database/Numbering.antt =====
-- The specification of loading, and the numbering of one file against it.
use irc_bot_rs.Base.{
  ℕ, suc, ◌+◌, ◌<◌, ◌≤◌, ◌≡◌, refl, sym, ap, ◌∙◌, true, false, List, [], ◌∷◌, ◌++◌, map, append-nil,
  arith, ◌==◌, if◌then◌else◌, length, unwrap_or, All, Result, ok, err, ◌>>=◌,
}
use irc_bot_rs.Text.{Text}
use irc_bot_rs.Core.Err.{Error}
use irc_bot_rs.Core.Err.{◌>>=◌ as ◌then◌}
use irc_bot_rs.Quote.{Quotation, QuotationFileMetadata}
use irc_bot_rs.Quote.Database.{
  QuotationIr, QuotationFileIr, DirEntry, is_quotation_file, LoadEnv, number_quotations,
}
use irc_bot_rs.Quote.Database.View.{
  Content, FileView, contents, file_view, Numbered, Counted, contents-append,
}

module _ (load_env : LoadEnv) where
  -- What a file says, its defaults filled in.
  abbrev pub expected_content : QuotationFileIr → QuotationIr → Content
  expected_content file q = record {
    format = unwrap_or q.format file.format;
    text = q.text;
    tags = load_env.sort_tags q.tags;
    url = q.url;
    anti_ping_tactic = unwrap_or q.anti_ping_tactic file.anti_ping_tactic;
  }

  abbrev pub expected_file : Text → QuotationFileIr → FileView
  expected_file name file = record {
    name = name;
    channels = file.channels;
    quotations = map (expected_content file) file.quotations;
  }

  -- The specification: the quotation files of the directory in order, or the first error.
  abbrev pub expected_files : List (Result Error DirEntry) → Result Error (List FileView)
  expected_files [] = ok []
  expected_files (err e ∷ entries) = err e
  expected_files (ok entry ∷ entries) =
      let rest = expected_files entries in
      if is_quotation_file entry
      then entry.content
        >>= (λ file. rest >>= λ files. ok (expected_file entry.file_name file ∷ files))
      else rest

  abbrev quantity_in : Result Error QuotationFileIr → ℕ
  quantity_in (ok file) = length file.quotations
  quantity_in (err e) = 0

  -- How many quotations there are in all files that can be read.
  abbrev pub quantity : List (Result Error DirEntry) → ℕ
  quantity [] = 0
  quantity (err e ∷ entries) = quantity entries
  quantity (ok entry ∷ entries) = quantity_in entry.content + quantity entries

  module _ (file : QuotationFileIr) (file_id : ℕ) where
    pub length-number_quotations :
        (next : ℕ) (qs : List QuotationIr)
        → length (number_quotations load_env next file_id file qs) ≡ length qs
    unfolding number_quotations
    length-number_quotations next [] = refl
    length-number_quotations next (q ∷ qs) = ap suc (length-number_quotations (next + 1) qs)

    pub number_quotations-Numbered :
        (next : ℕ) (qs : List QuotationIr)
        → Numbered Quotation.id next (number_quotations load_env next file_id file qs)
    unfolding number_quotations
    number_quotations-Numbered next [] = tt
    number_quotations-Numbered next (q ∷ qs) = (refl, number_quotations-Numbered (next + 1) qs)

    pub number_quotations_below :
        (next n : ℕ) (qs : List QuotationIr)
        → file_id < n
        → All (λ q. q.file_id < n) (number_quotations load_env next file_id file qs)
    unfolding number_quotations
    number_quotations_below next n [] h = tt
    number_quotations_below next n (q ∷ qs) h = (h, number_quotations_below (next + 1) n qs h)

    pub contents-number_quotations :
        (next : ℕ) (qs : List QuotationIr)
        → contents file_id (number_quotations load_env next file_id file qs)
          ≡ map (expected_content file) qs
    unfolding number_quotations
    contents-number_quotations next [] = refl
    contents-number_quotations next (q ∷ qs) =
        let y : (file_id == file_id) ≡ true = ground arith in
        rw y (ap (λ x. expected_content file q ∷ x) (contents-number_quotations (next + 1) qs))

    contents-number_quotations_other :
        (next i : ℕ) (qs : List QuotationIr)
        → i < file_id
        → contents i (number_quotations load_env next file_id file qs) ≡ []
    unfolding number_quotations
    contents-number_quotations_other next i [] h = refl
    contents-number_quotations_other next i (q ∷ qs) h =
        let n : (file_id == i) ≡ false = ground arith in
        rw n (contents-number_quotations_other (next + 1) i qs h)

    -- Quotations of a new file change nothing in the old ones.
    old_contents :
        (i next : ℕ) (old : List Quotation) (qs : List QuotationIr)
        → i < file_id
        → contents i (old ++ number_quotations load_env next file_id file qs) ≡ contents i old
    old_contents i next old qs h =
        contents-append i old (number_quotations load_env next file_id file qs)
        ∙ ap (λ x. contents i old ++ x) (contents-number_quotations_other next i qs h)
        ∙ append-nil (contents i old)

    pub old_views :
        (next : ℕ) (old : List Quotation) (qs : List QuotationIr) (fs : List QuotationFileMetadata)
        → All (λ f. f.file_id < file_id) fs
        → map (file_view (old ++ number_quotations load_env next file_id file qs)) fs
          ≡ map (file_view old) fs
    old_views next old qs [] h = refl
    old_views next old qs (f ∷ fs) (l, h) =
        rw (old_contents f.file_id next old qs l, old_views next old qs fs h) refl

    pub old_counts :
        (next : ℕ) (old : List Quotation) (qs : List QuotationIr) (fs : List QuotationFileMetadata)
        → All (λ f. f.file_id < file_id) fs
        → All (Counted old) fs
        → All (Counted (old ++ number_quotations load_env next file_id file qs)) fs
    old_counts next old qs [] h c = tt
    old_counts next old qs (f ∷ fs) (l, h) (e, c) = (
      e ∙ ap (λ x. length x) (sym (old_contents f.file_id next old qs l)),
      old_counts next old qs fs h c,
    )

  pub length-map : {A B : Type 0} (f : A → B) (xs : List A) → length (map f xs) ≡ length xs
  length-map f [] = refl
  length-map f (x ∷ xs) = ap suc (length-map f xs)

  pub All-below :
      (n m : ℕ) (qs : List Quotation)
      → n ≤ m
      → All (λ q. q.file_id < n) qs
      → All (λ q. q.file_id < m) qs
  All-below n m [] h k = tt
  All-below n m (q ∷ qs) h (l, k) = (omega arith, All-below n m qs h k)

  pub map-append_one :
      {A B : Type 0} (f : A → B) (xs : List A) (x : A) → map f (xs ++ x ∷ []) ≡ map f xs ++ f x ∷ []
  map-append_one f [] x = refl
  map-append_one f (y ∷ xs) x = ap (λ t. f y ∷ t) (map-append_one f xs x)
