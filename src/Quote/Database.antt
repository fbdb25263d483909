-- ===== src/Quote/Database.antt =====
-- Loading the database of quotations (`on_load`), and looking quotations up in it.
pub mod View
pub mod Numbering
pub mod OneFile
pub mod Loading
use irc_bot_rs.Base.{
  ℕ, ◌+◌, Bool, true, false, not, ◌&&◌, ◌||◌, Option, none, some, List, [], ◌∷◌, ◌++◌, ltb, ◌==◌,
  if◌then◌else◌, length, unwrap_or, on_option, Result, ok, err,
}
use irc_bot_rs.Text.{Text, codes, starts_with}
use irc_bot_rs.Util.Regex.{RegexBuilder}
use irc_bot_rs.Core.Err.{
  Error, integer_overflow, lock_poisoned, Outcome, done, failed, panicked, out_of_fuel, ◌>>=◌,
}
use irc_bot_rs.Core.State.{State, Lock}
use irc_bot_rs.Quote.{
  Quotation, QuotationFormat, AntiPingTactic, QuotationFileMetadata, QuotationDatabase,
}
use irc_bot_rs.Quote.Id.{usize_end}

pub record QuotationIr : Type 0 where
  pub format : Option QuotationFormat
  pub text : Text
  pub tags : List Text
  pub url : Option Text
  pub anti_ping_tactic : Option AntiPingTactic

pub record QuotationFileIr : Type 0 where
  pub channels : RegexBuilder
  pub format : QuotationFormat
  pub anti_ping_tactic : AntiPingTactic
  pub quotations : List QuotationIr

-- `QuotationDatabase::new`
abbrev pub new_database : QuotationDatabase
new_database = record { files = []; quotations = [] }

-- An entry of the directory: `content` is what opening and deserialising it comes to.
pub record DirEntry : Type 0 where
  pub is_file : Bool
  pub file_name : Text
  pub content : Result Error QuotationFileIr

abbrev pub too_many : Error
too_many =
    integer_overflow
      (codes "Attempted to load a quotation database containing too many quotations.")

-- The predicate of `filter_entry`
abbrev pub is_quotation_file : DirEntry → Bool
is_quotation_file entry = entry.is_file && not (starts_with entry.file_name (codes "."))

-- What the code calls that is not its own: whether the directory `quote` exists in a module data path,
-- what walking it yields, the order of tags, and whether debug assertions are checked.
pub record LoadEnv : Type 0 where
  pub exists : Text → Bool
  pub walk : Text → List (Result Error DirEntry)
  pub sort_tags : List Text → List Text
  pub debug_assertions : Bool

abbrev pub from_result : {A : Type 0} → Result Error A → Outcome A
from_result (ok a) = done a
from_result (err e) = failed e

-- What follows once the lock is taken. The old database is taken out before the first file is read,
-- so that an error leaves an empty one, and a panic poisons the lock.
unfoldable pub store : Outcome QuotationDatabase → Outcome (Unit {0}) × Lock QuotationDatabase
store (done new_qdb) = (done tt, record { content = new_qdb; poisoned = false })
store (failed e) = (failed e, record { content = new_database; poisoned = false })
store panicked = (panicked, record { content = new_database; poisoned = true })
store out_of_fuel = (out_of_fuel, record { content = new_database; poisoned = false })

module _ (load_env : LoadEnv) where
  abbrev pub mk_quotation : ℕ → ℕ → QuotationFileIr → QuotationIr → Quotation
  mk_quotation id file_id file q = record {
    id = id;
    file_id = file_id;
    format = unwrap_or q.format file.format;
    text = q.text;
    tags = load_env.sort_tags q.tags;
    url = q.url;
    anti_ping_tactic = unwrap_or q.anti_ping_tactic file.anti_ping_tactic;
  }

  -- The `map` that numbers the quotations of a file.
  unfoldable pub number_quotations : ℕ → ℕ → QuotationFileIr → List QuotationIr → List Quotation
  number_quotations next_quotation_id file_id file [] = []
  number_quotations next_quotation_id file_id file (q ∷ qs) =
      mk_quotation next_quotation_id file_id file q
      ∷ number_quotations (next_quotation_id + 1) file_id file qs

  -- The body of the loop once the file is deserialised. The file's metadata are pushed before the
  -- overflow check; where that fails, the new database is dropped.
  unfoldable pub load_file :
      Text → QuotationFileIr → QuotationDatabase → ℕ → Outcome (QuotationDatabase × ℕ)
  unfolding number_quotations
  load_file name file new_qdb next_quotation_id =
      let file_id = length new_qdb.files in
      let metadata : QuotationFileMetadata = record {
        name = name;
        file_id = file_id;
        channels_regex = file.channels;
        quotation_count = length file.quotations;
      } in
      if load_env.debug_assertions && not (next_quotation_id == length new_qdb.quotations)
      then panicked
      else if ltb (next_quotation_id + length file.quotations) usize_end
      then done (
        record {
          files = new_qdb.files ++ metadata ∷ [];
          quotations =
              new_qdb.quotations
              ++ number_quotations next_quotation_id file_id file file.quotations;
        },
        next_quotation_id + length file.quotations,
      )
      else failed too_many

  -- The loop over the directory.
  unfoldable pub load_files :
      List (Result Error DirEntry) → QuotationDatabase → ℕ → Outcome QuotationDatabase
  unfolding load_file
  load_files [] new_qdb next_quotation_id = done new_qdb
  load_files (err e ∷ entries) new_qdb next_quotation_id = failed e
  load_files (ok entry ∷ entries) new_qdb next_quotation_id = elim (is_quotation_file entry) [
    | true ↦ (do
      file ← from_result entry.content
      (new_qdb', next_quotation_id') ← load_file entry.file_name file new_qdb next_quotation_id
      load_files entries new_qdb' next_quotation_id')
    | false ↦ load_files entries new_qdb next_quotation_id
  ]

  unfoldable pub on_load :
      State → Lock QuotationDatabase → Outcome (Unit {0}) × Lock QuotationDatabase
  unfolding load_files store
  on_load s qdb =
      if not (load_env.exists s.module_data_path)
      then (done tt, qdb)
      else if qdb.poisoned
      then (failed (lock_poisoned (codes "quotation database")), qdb)
      else store (load_files (load_env.walk s.module_data_path) new_database 0)

-- `read_qdb`
unfoldable pub read_qdb : Lock QuotationDatabase → Outcome QuotationDatabase
read_qdb qdb =
    if qdb.poisoned then failed (lock_poisoned (codes "quotation database")) else done qdb.content
