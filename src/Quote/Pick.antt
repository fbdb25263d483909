-- ===== src/Quote/Pick.antt =====
-- Choosing a quotation (`pick_quotation`), and finding one by its identifier.
pub mod Choice
pub mod ById
use irc_bot_rs.Base.{
  ℕ, Bool, true, false, not, ◌&&◌, ◌||◌, Option, none, some, List, [], ◌∷◌, ◌++◌, get_elem?, ltb,
  if◌then◌else◌, on_option, unwrap_or, Result, ok, err,
}
use irc_bot_rs.Text.{Text, codes}
use irc_bot_rs.Core.Env.{Env}
use irc_bot_rs.Core.Handler.{HandlerContext, Attempt, got, refused, ◌>>=◌, lift}
use irc_bot_rs.Core.Irc.{MsgDest}
use irc_bot_rs.Core.Reaction.{Reaction, BotCmdResult, user_err_msg}
use irc_bot_rs.Core.Reply.{privmsg_content_max_len}
use irc_bot_rs.Quote.{
  Quotation, QuoteParams, AntiPingTactic, munge, eschew, no_tactic, QuotationDatabase,
  get_quotation_by_id, quotation_matches_query_params, quotation_text_contains_any,
  check_file_permissions,
}
use irc_bot_rs.Quote.Id.{ParseIntError, parse_id}
use irc_bot_rs.Quote.Render.{rendered_quotation_byte_len}

pub data QuotationChoice : Type 0 where
  text : Quotation → QuotationChoice
  url : ℕ → Text → QuotationChoice

-- What the module calls that is not its own: the bot's environment; where the match of
-- `METADATA_REGEX` with a line ends; whether debug assertions are checked; an order that `rand_iter`
-- draws; the nicknames of the users that a connection knows in a channel; `serde_yaml::from_str` for
-- a tactic; the display of an error; and what the crate `quantiles` answers of a list of numbers.
pub record QuoteEnv : Type 0 where
  pub env : Env
  pub find_metadata : Text → Option ℕ
  pub debug_assertions : Bool
  pub rand_iter : List Quotation → List Quotation
  pub list_users : ℕ → Text → Option (List Text)
  pub parse_tactic : Text → Result Text AntiPingTactic
  pub display_parse_error : ParseIntError → Text
  pub five_number_summary : List ℕ → Text

abbrev pub is_eschew : AntiPingTactic → Bool
is_eschew eschew = true
is_eschew munge = false
is_eschew no_tactic = false

abbrev pub none_fits : Text
none_fits =
    codes
      "I have found one or more quotations matching the given query parameters in the files I am allowed to quote in this channel, but all such quotations were too long to quote safely in this channel."

abbrev pub none_found : Text
none_found =
    codes
      "I have found no quotation matching the given query parameters in the files I am allowed to quote in this channel."

abbrev pub chosen : Option QuotationChoice × Bool → Attempt QuotationChoice
chosen (some c, rejected) = got c
chosen (none, rejected) =
    refused (BotCmdResult.ok (Reaction.reply (if rejected then none_fits else none_found)))

module _ (q_env : QuoteEnv) where
  unrecognized : Text → Text
  unrecognized input =
      codes "The given value of the parameter `id`, "
      ++ q_env.env.debug input
      ++ codes ", was not recognized as the identifier of a quotation in my quotation database."

  unparsable : Text → ParseIntError → Text
  unparsable input e =
      codes "The given value of the parameter `id`, "
      ++ q_env.env.debug input
      ++ codes ", failed to parse as a quotation identifier: "
      ++ q_env.display_parse_error e

  found_by_id : Text → Option Quotation → Attempt Quotation
  unfolding unrecognized
  found_by_id input none = refused (user_err_msg (unrecognized input))
  found_by_id input (some q) = got q

  looked_up : QuotationDatabase → Text → Result ParseIntError ℕ → Attempt Quotation
  unfolding found_by_id unparsable get_quotation_by_id
  looked_up qdb input (ok id) = found_by_id input (get_quotation_by_id qdb id)
  looked_up qdb input (err e) = refused (user_err_msg (unparsable input e))

  unfoldable pub get_quotation_by_user_specified_id : QuotationDatabase → Text → Attempt Quotation
  unfolding looked_up
  get_quotation_by_user_specified_id qdb input = looked_up qdb input (parse_id input)

  -- What the closures see: the query, who is in the channel, which files may be seen there, and how
  -- long a message may be.
  module _ (params : QuoteParams) (nicks : List Text) (permissions : List Bool) (max_len : ℕ) where
    abbrev pub permitted : Quotation → Bool
    permitted q = on_option (get_elem? permissions q.file_id) false λ b. b

    abbrev pub eschewed : Quotation → Bool
    eschewed q =
        is_eschew (unwrap_or params.anti_ping_tactic q.anti_ping_tactic)
        && quotation_text_contains_any q_env.find_metadata q nicks

    -- The closure of `filter_map`, and whether the quotation is rejected for its length.
    unfoldable pub try_quotation : Quotation → Option QuotationChoice × Bool
    try_quotation q =
        if not (quotation_matches_query_params q_env.env.regex params q_env.find_metadata q)
        then (none, false)
        else if not (permitted q)
        then (none, false)
        else if ltb max_len (rendered_quotation_byte_len q_env.find_metadata q)
        then on_option q.url (none, true) (λ u. (some (url q.id u), false))
        else if eschewed q
        then (none, false)
        else (some (text q), false)

    -- `filter_map(..).next()`: the first choice, and whether a quotation was rejected on the way.
    unfoldable pub first_choice : List Quotation → Bool → Option QuotationChoice × Bool
    unfolding try_quotation
    first_choice [] rejected = (none, rejected)
    first_choice (q ∷ qs) rejected =
        let (choice, too_long) = try_quotation q in
        let rest = first_choice qs (rejected || too_long) in
        on_option choice rest λ c. (some c, rejected || too_long)

  -- The quotations to choose from.
  unfoldable pub candidates : QuoteParams → QuotationDatabase → Attempt (List Quotation)
  unfolding get_quotation_by_user_specified_id
  candidates params qdb =
      on_option params.id (got qdb.quotations)
        λ id. (do q ← get_quotation_by_user_specified_id qdb id; got (q ∷ []))

  unfoldable pub pick_quotation :
      HandlerContext
      → QuoteParams
      → MsgDest
      → QuotationDatabase
      → List Text
      → Attempt QuotationChoice
  unfolding candidates first_choice
  pick_quotation ctx params reply_dest qdb nicks = do
    max_len ← lift (privmsg_content_max_len q_env.env ctx.state reply_dest)
    quotations ← candidates params qdb
    (let permissions = check_file_permissions q_env.env.regex qdb.files reply_dest.target in
        chosen (first_choice params nicks permissions max_len (q_env.rand_iter quotations) false))
