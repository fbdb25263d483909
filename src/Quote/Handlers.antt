-- ===== src/Quote/Handlers.antt =====
-- The handlers of the commands of the module `quote`.
pub mod Posting
pub mod Reply
use irc_bot_rs.Base.{
  ℕ, zero, suc, ◌+◌, ◌-◌, ◌/◌, ◌%◌, ◌^◌, min, Bool, true, false, ◌&&◌, Option, none, some, List, [],
  ◌∷◌, ◌++◌, map, length, get_elem?, is_nil, ltb, if◌then◌else◌, on_option, unwrap_or,
}
use irc_bot_rs.Text.{Text, codes, join, decimal}
use irc_bot_rs.Util.Yaml.{Yaml}
use irc_bot_rs.Util.Regex.{RegexCrate}
use irc_bot_rs.Core.Err.{Outcome, done, failed, panicked, out_of_fuel}
use irc_bot_rs.Core.Handler.{HandlerContext, Attempt, got, refused, ◌>>=◌, lift, context_reply_dest}
use irc_bot_rs.Core.Reaction.{Reaction}
use irc_bot_rs.Core.State.{State, Lock, aatxe_client}
use irc_bot_rs.Quote.{
  Quotation, QuotationFormat, chat, plain, QuoteParams, QuotationFileMetadata, QuotationDatabase,
  check_file_permissions, by_format,
}
use irc_bot_rs.Quote.Database.{LoadEnv, on_load, read_qdb}
use irc_bot_rs.Quote.Id.{print_id}
use irc_bot_rs.Quote.Params.{prepare_quote_params}
use irc_bot_rs.Quote.Pick.{QuotationChoice, text, url, QuoteEnv, pick_quotation}
use irc_bot_rs.Quote.Render.{for_each_quotation_text_piece, render_quotation}

-- `QuoteParams::default`
abbrev pub default_params : QuoteParams
default_params = record {
  regexes = [];
  literals = [];
  tags = [];
  id = none;
  anti_ping_tactic = none;
}

abbrev pub url_text : ℕ → Text → Text
url_text id u = codes "[" ++ (print_id id ++ (codes "] <" ++ (u ++ codes ">")))

-- The files that may be named, as the list shows them.
unfoldable pub visible_files : List QuotationFileMetadata → List Bool → List Text
visible_files [] permissions = []
visible_files (f ∷ fs) permissions =
    let rest = visible_files fs permissions in
    if on_option (get_elem? permissions f.file_id) false (λ b. b)
    then (f.name ++ (codes " (" ++ (decimal f.quotation_count ++ codes ")"))) ∷ rest
    else rest

-- `pad_using(1, ..)`
abbrev padded : List Text → List Text
padded [] = codes "<none>" ∷ []
padded (t ∷ ts) = t ∷ ts

module _ (q_env : QuoteEnv) where
  abbrev pub channel_users : ℕ → Text → List Text
  channel_users client target = unwrap_or (q_env.list_users client target) []

  output_text : QuoteParams → List Text → QuotationChoice → Attempt Text
  output_text params nicks (text q) =
      lift (render_quotation q_env.find_metadata q_env.debug_assertions params q nicks)
  output_text params nicks (url id u) = got (url_text id u)

  unfoldable pub quote : HandlerContext → Lock QuotationDatabase → Yaml → Attempt Reaction
  unfolding output_text
  quote ctx lock arg = do
    params ← prepare_quote_params q_env ctx arg
    reply_dest ← lift (context_reply_dest q_env.env ctx)
    qdb ← lift (read_qdb lock)
    client ← lift (aatxe_client ctx.state reply_dest.server_id)
    choice ← pick_quotation q_env ctx params reply_dest qdb (channel_users client reply_dest.target)
    t ← output_text params (channel_users client reply_dest.target) choice
    got (Reaction.msg t)

  unfoldable pub show_qdb_info : HandlerContext → Lock QuotationDatabase → Attempt Reaction
  unfolding visible_files
  show_qdb_info ctx lock = do
    qdb ← lift (read_qdb lock)
    reply_dest ← lift (context_reply_dest q_env.env ctx)
    (let permissions = check_file_permissions q_env.env.regex qdb.files reply_dest.target in
        got (
          Reaction.msgs (
            (codes "I have "
              ++ (decimal (length qdb.quotations)
                  ++ (codes " total quotation(s) in "
                      ++ (decimal (length qdb.files)
                          ++ (codes
                                " file(s). The files I may name in this channel, along with their quotation counts, are: "
                              ++ (join (codes ", ") (padded (visible_files qdb.files permissions))
                                  ++ codes "."))))))
            ∷ [])))

  -- The number of pieces, saturated as a `u32`; what else the call comes to is not looked at, unless it
  -- panics.
  piece_quantity : Outcome (List Text × Bool) → Attempt ℕ
  piece_quantity (done (pieces, abridged)) = got (min (length pieces) (2 ^ 32 - 1))
  piece_quantity (failed e) = got 0
  piece_quantity panicked = Attempt.crashed
  piece_quantity out_of_fuel = Attempt.unfinished

  unfoldable pub chat_piece_quantities : List Quotation → Attempt (List ℕ)
  unfolding piece_quantity
  chat_piece_quantities [] = got []
  chat_piece_quantities (q ∷ qs) =
      let rest = chat_piece_quantities qs in
      by_format q.format
        (do
          n ← piece_quantity (
              for_each_quotation_text_piece q_env.find_metadata q_env.debug_assertions
                default_params q [])
          ns ← rest
          got (n ∷ ns))
        rest

  reloaded : Outcome (Unit {0}) × Lock QuotationDatabase → Attempt Reaction
  unfolding chat_piece_quantities
  reloaded (result, lock) = do
    loaded ← lift result
    qdb ← lift (read_qdb lock)
    quantities ← chat_piece_quantities qdb.quotations
    got (
        Reaction.msg (
          codes
            "I have reloaded my quotation database. The five-number summary of the numbers of pieces into which chat-format quotations' texts get broken, assuming no anti-ping munging, is "
          ++ (q_env.five_number_summary quantities ++ codes ".")))

  unfoldable pub reload_qdb :
      LoadEnv → HandlerContext → Lock QuotationDatabase → Attempt Reaction × Lock QuotationDatabase
  unfolding reloaded
  reload_qdb load_env ctx lock =
      (reloaded (on_load load_env ctx.state lock), (on_load load_env ctx.state lock).1)
