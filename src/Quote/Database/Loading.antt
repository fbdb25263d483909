-- ===== src/Quote/Database/Loading.antt =====
-- Loading implements its specification, and keeps the database consistent whatever happens.
use irc_bot_rs.Base.{
  ℕ, ◌+◌, ◌<◌, ◌≡◌, ◌≢◌, refl, sym, ◌∙◌, inl, inr, true, false, not, ◌&&◌, Bool-cases, List, [],
  ◌∷◌, ◌++◌, append_assoc, append-nil, arith, ltb, ◌==◌, length, Result, ok, err, Result-cases,
}
use irc_bot_rs.Text.{Text}
use irc_bot_rs.Core.Err.{Error, Outcome, done, failed, panicked, out_of_fuel}
use irc_bot_rs.Core.State.{State, Lock}
use irc_bot_rs.Quote.{QuotationDatabase}
use irc_bot_rs.Quote.Id.{usize_end}
use irc_bot_rs.Quote.Database.{
  QuotationFileIr, DirEntry, is_quotation_file, new_database, LoadEnv, too_many, load_file,
  load_files, store, on_load,
}
use irc_bot_rs.Quote.Database.View.{FileView, view, IsConsistent}
use irc_bot_rs.Quote.Database.Numbering.{expected_file, expected_files, quantity}
use irc_bot_rs.Quote.Database.OneFile.{
  with_file, load_file_done, length-with_file, with_file-view, with_file-IsConsistent,
}

new_database-IsConsistent : IsConsistent new_database
new_database-IsConsistent = record { ids = tt; file_ids = tt; in_files = tt; counts = tt }

-- A consistent database, or an error.
abbrev IsGood : Outcome QuotationDatabase → Type 0
IsGood (done qdb) = IsConsistent qdb
IsGood (failed e) = Unit
IsGood panicked = ⊥
IsGood out_of_fuel = ⊥

-- What is loaded, as the specification says it, behind what was there.
abbrev Implements :
    QuotationDatabase → Outcome QuotationDatabase → Result Error (List FileView) → Type 0
Implements before r (ok files) =
    (after : QuotationDatabase) × (r ≡ done after) × (view after ≡ view before ++ files)
Implements before r (err e) = r ≡ failed e

-- The result and the new content of the lock, as the specification says.
abbrev pub Loads :
    Outcome (Unit {0}) × Lock QuotationDatabase → Result Error (List FileView) → Type 0
Loads (r, qdb) (ok files) = (r ≡ done tt) × (view qdb.content ≡ files)
Loads (r, qdb) (err e) = (r ≡ failed e) × (view qdb.content ≡ [])

module _ (load_env : LoadEnv) where
  load_file_overflow :
      (name : Text) (file : QuotationFileIr) (qdb : QuotationDatabase)
      → ltb (length qdb.quotations + length file.quotations) usize_end ≡ false
      → load_file load_env name file qdb (length qdb.quotations) ≡ failed too_many
  unfolding load_file
  load_file_overflow name file qdb h =
      let no_panic : (load_env.debug_assertions
            && not (length qdb.quotations == length qdb.quotations))
          ≡ false =
        ground arith in
      rw (no_panic, h) refl

  load_files-IsGood :
      (entries : List (Result Error DirEntry)) (qdb : QuotationDatabase) (n : ℕ)
      → n ≡ length qdb.quotations
      → IsConsistent qdb
      → IsGood (load_files load_env entries qdb n)
  unfolding load_files
  load_files-IsGood [] qdb n e c = c
  load_files-IsGood (err failure ∷ entries) qdb n e c = tt
  load_files-IsGood (ok entry ∷ entries) qdb n e c = elim (Bool-cases (is_quotation_file entry)) [
    | inr skipped ↦ rw (load_files, skipped) (load_files-IsGood entries qdb n e c)
    | inl shown ↦ elim (Result-cases entry.content) [
      | inr (failure, f) ↦ rw (load_files, shown, f) tt
      | inl (file, f) ↦
          elim (Bool-cases (ltb (length qdb.quotations + length file.quotations) usize_end)) [
            | inl fits ↦
                rw
                  (
                    load_files,
                    shown,
                    f,
                    e,
                    load_file_done load_env entry.file_name file qdb c (ground arith),
                  )
                  (load_files-IsGood entries (with_file load_env entry.file_name file qdb)
                    (length qdb.quotations + length file.quotations)
                    (sym (length-with_file load_env entry.file_name file qdb c))
                    (with_file-IsConsistent load_env entry.file_name file qdb c))
            | inr large ↦
                rw (load_files, shown, f, e, load_file_overflow entry.file_name file qdb large) tt
          ]
    ]
  ]

  load_files-Implements :
      (entries : List (Result Error DirEntry)) (qdb : QuotationDatabase) (n : ℕ)
      → n ≡ length qdb.quotations
      → IsConsistent qdb
      → n + quantity load_env entries < usize_end
      → Implements qdb (load_files load_env entries qdb n) (expected_files load_env entries)
  unfolding load_files
  load_files-Implements [] qdb n e c l = (qdb, refl, sym (append-nil (view qdb)))
  load_files-Implements (err failure ∷ entries) qdb n e c l = refl
  load_files-Implements (ok entry ∷ entries) qdb n e c l =
      elim (Bool-cases (is_quotation_file entry)) [
        | inr skipped ↦
            rw (load_files, skipped) (load_files-Implements entries qdb n e c (omega arith))
        | inl shown ↦ elim (Result-cases entry.content) [
          | inr (failure, f) ↦ rw (load_files, shown, f) refl
          | inl (file, f) ↦
              let l' : n + (length file.quotations + quantity load_env entries) < usize_end =
                rw f at l in
              let name = entry.file_name in
              let next = with_file load_env name file qdb in
              let ih =
                load_files-Implements entries next (length qdb.quotations + length file.quotations)
                  (sym (length-with_file load_env name file qdb c))
                  (with_file-IsConsistent load_env name file qdb c) (omega (arith, e)) in
              elim (Result-cases (expected_files load_env entries)) [
                | inl (files, g) ↦
                    let (after, r, v) = rw g at ih in
                    rw
                      (
                        load_files,
                        shown,
                        f,
                        e,
                        load_file_done load_env name file qdb c (omega (arith, e)),
                        g,
                      )
                      (
                        after,
                        r,
                        v
                            ∙ rw (with_file-view load_env name file qdb c) (
                                append_assoc (view qdb) (expected_file load_env name file ∷ [])
                                  files),
                      )
                | inr (failure, g) ↦
                    rw
                      (
                        load_files,
                        shown,
                        f,
                        e,
                        load_file_done load_env name file qdb c (omega (arith, e)),
                        g,
                      )
                      (rw g at ih)
              ]
        ]
      ]

  stored_good :
      (r : Outcome QuotationDatabase)
      → IsGood r
      → IsConsistent (store r).1.content × ((store r).1.poisoned ≡ false) × ((store r).0 ≢ panicked)
  unfolding store
  stored_good (done qdb) h = (h, refl, λ e. cc)
  stored_good (failed e) h = (new_database-IsConsistent, refl, λ e'. cc)
  stored_good panicked h = absurd h
  stored_good out_of_fuel h = absurd h

  -- Loading the database, whatever is in the directory and whatever fails, keeps it consistent, leaves
  -- its lock as poisoned as it was, and does not panic.
  pub on_load-IsConsistent :
      (s : State) (qdb : Lock QuotationDatabase)
      → IsConsistent qdb.content
      → IsConsistent (on_load load_env s qdb).1.content
        × ((on_load load_env s qdb).1.poisoned ≡ qdb.poisoned)
        × ((on_load load_env s qdb).0 ≢ panicked)
  unfolding on_load
  on_load-IsConsistent s qdb c = elim (Bool-cases (load_env.exists s.module_data_path)) [
    | inr missing ↦ rw missing (c, refl, λ e. cc)
    | inl exists ↦ elim (Bool-cases qdb.poisoned) [
      | inl y ↦ rw (exists, y) (c, refl, λ e. cc)
      | inr n ↦
          rw (exists, n)
            (stored_good (load_files load_env (load_env.walk s.module_data_path) new_database 0) (
              load_files-IsGood (load_env.walk s.module_data_path) new_database 0 refl
                new_database-IsConsistent))
    ]
  ]

  stored-Loads :
      (r : Outcome QuotationDatabase) (files : Result Error (List FileView))
      → Implements new_database r files
      → Loads (store r) files
  unfolding store
  stored-Loads r (ok files) (after, e, v) = rw e (refl, v)
  stored-Loads r (err e) h = rw h (refl, refl)

  -- If the directory exists, its lock is not poisoned, and its files have fewer quotations than a
  -- `usize` can count, loading yields the files of the directory, in order, each with the quotations
  -- that it lists, with its defaults filled in, or else fails with the first error and leaves the
  -- database empty.
  pub on_load-Loads :
      (s : State) (qdb : Lock QuotationDatabase)
      → load_env.exists s.module_data_path ≡ true
      → qdb.poisoned ≡ false
      → quantity load_env (load_env.walk s.module_data_path) < usize_end
      → Loads (on_load load_env s qdb) (expected_files load_env (load_env.walk s.module_data_path))
  unfolding on_load
  on_load-Loads s qdb exists n l =
      rw (exists, n)
        (stored-Loads (load_files load_env (load_env.walk s.module_data_path) new_database 0)
          (expected_files load_env (load_env.walk s.module_data_path))
          (load_files-Implements (load_env.walk s.module_data_path) new_database 0 refl
            new_database-IsConsistent (omega arith)))
