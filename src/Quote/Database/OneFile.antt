-- ===== src/Quote/Database/OneFile.antt =====
-- One more file in a consistent database.
use irc_bot_rs.Base.{
  ◌+◌, ◌<◌, ◌≡◌, refl, sym, ◌∙◌, true, false, not, ◌&&◌, [], ◌∷◌, ◌++◌, map, arith, ltb, ◌==◌,
  length, length-append, All-append,
}
use irc_bot_rs.Text.{Text}
use irc_bot_rs.Core.Err.{done}
use irc_bot_rs.Quote.{Quotation, QuotationFileMetadata, QuotationDatabase}
use irc_bot_rs.Quote.Id.{usize_end}
use irc_bot_rs.Quote.Database.{QuotationFileIr, LoadEnv, number_quotations, load_file}
use irc_bot_rs.Quote.Database.View.{
  contents, file_view, view, IsConsistent, Numbered-append, Numbered-below, contents-append,
  contents_other,
}
use irc_bot_rs.Quote.Database.Numbering.{
  expected_content, expected_file, length-number_quotations, number_quotations-Numbered,
  number_quotations_below, contents-number_quotations, old_views, old_counts, length-map, All-below,
  map-append_one,
}

module _ (load_env : LoadEnv) where
  -- The database with one more file.
  abbrev pub with_file : Text → QuotationFileIr → QuotationDatabase → QuotationDatabase
  with_file name file qdb = record {
    files =
        qdb.files
        ++ (record {
          name = name;
          file_id = length qdb.files;
          channels_regex = file.channels;
          quotation_count = length file.quotations;
        })
          ∷ [];
    quotations =
        qdb.quotations
        ++ number_quotations load_env (length qdb.quotations) (length qdb.files) file
            file.quotations;
  }

  module _ (name : Text) (file : QuotationFileIr) (qdb : QuotationDatabase)
      (c : IsConsistent qdb) where
    pub load_file_done :
        length qdb.quotations + length file.quotations < usize_end
        → load_file load_env name file qdb (length qdb.quotations)
          ≡ done (with_file name file qdb, length qdb.quotations + length file.quotations)
    unfolding load_file
    load_file_done h =
        let no_panic : (load_env.debug_assertions
              && not (length qdb.quotations == length qdb.quotations))
            ≡ false =
          ground arith in
        let fits : ltb (length qdb.quotations + length file.quotations) usize_end ≡ true =
          ground arith in
        rw (no_panic, fits) refl

    pub length-with_file :
        length (with_file name file qdb).quotations ≡ length qdb.quotations + length file.quotations
    length-with_file = omega (
      arith,
      length-append qdb.quotations (
          number_quotations load_env (length qdb.quotations) (length qdb.files) file
            file.quotations),
      length-number_quotations load_env file (length qdb.files) (length qdb.quotations)
          file.quotations,
    )

    new_contents :
        contents (length qdb.files) (with_file name file qdb).quotations
        ≡ map (expected_content load_env file) file.quotations
    new_contents =
        contents-append (length qdb.files) qdb.quotations (
          number_quotations load_env (length qdb.quotations) (length qdb.files) file
            file.quotations)
        ∙ rw (contents_other (length qdb.files) qdb.quotations c.in_files) (
            contents-number_quotations load_env file (length qdb.files) (length qdb.quotations)
              file.quotations)

    pub with_file-view :
        view (with_file name file qdb) ≡ view qdb ++ expected_file load_env name file ∷ []
    with_file-view =
        map-append_one load_env (file_view (with_file name file qdb).quotations) qdb.files _
        ∙ rw
            (
              new_contents,
              old_views load_env file (length qdb.files) (length qdb.quotations) qdb.quotations
                  file.quotations qdb.files
                  (Numbered-below QuotationFileMetadata.file_id 0 (length qdb.files) qdb.files
                    (omega arith) c.file_ids),
            )
            refl

    pub with_file-IsConsistent : IsConsistent (with_file name file qdb)
    with_file-IsConsistent = record {
      ids =
          Numbered-append Quotation.id 0 (length qdb.quotations) qdb.quotations
            (number_quotations load_env (length qdb.quotations) (length qdb.files) file
              file.quotations)
            (omega arith) c.ids
            (number_quotations-Numbered load_env file (length qdb.files) (length qdb.quotations)
              file.quotations);
      file_ids =
          Numbered-append QuotationFileMetadata.file_id 0 (length qdb.files) qdb.files _
            (omega arith) c.file_ids (refl, tt);
      in_files =
          All-append _ qdb.quotations
            (number_quotations load_env (length qdb.quotations) (length qdb.files) file
              file.quotations)
            (All-below load_env (length qdb.files) (length (with_file name file qdb).files)
              qdb.quotations (omega (arith, grown)) c.in_files)
            (number_quotations_below load_env file (length qdb.files) (length qdb.quotations)
              (length (with_file name file qdb).files) file.quotations (omega (arith, grown)));
      counts =
          All-append _ qdb.files _
            (old_counts load_env file (length qdb.files) (length qdb.quotations) qdb.quotations
              file.quotations qdb.files
              (Numbered-below QuotationFileMetadata.file_id 0 (length qdb.files) qdb.files
                (omega arith) c.file_ids)
              c.counts)
            (
              rw new_contents
                  (sym (length-map load_env (expected_content load_env file) file.quotations)),
              tt,
            );
    }
      where
        grown : length (with_file name file qdb).files ≡ length qdb.files + 1
        grown = length-append qdb.files _
