-- ===== src/Tests/Library.antt =====
-- A database of two quotations, and the command `quote` on it.
use irc_bot_rs.Base.{
  ℕ, ◌⊎◌, ◌≡◌, ◌≢◌, refl, true, false, List, map, Option, none, some, [], ◌∷◌, arith, All, ok, err,
}
use irc_bot_rs.Text.{Text, codes, len, contains}
use irc_bot_rs.Text.Counts.{count, total}
use irc_bot_rs.Util.Yaml.{Yaml, Fields, string, hash, field, end}
use irc_bot_rs.Util.Regex.{RegexBuilder, new_builder}
use irc_bot_rs.Core.Err.{io, done, panicked}
use irc_bot_rs.Core.Handler.{HandlerContext, got}
use irc_bot_rs.Core.Prefix.{OwningMsgPrefix}
use irc_bot_rs.Core.Reaction.{Reaction}
use irc_bot_rs.Core.Reply.{privmsg_content_max_len}
use irc_bot_rs.Core.State.{State, Lock, have_admin}
use irc_bot_rs.Quote.{
  Quotation, QuoteParams, QuotationDatabase, QuotationFileMetadata, AntiPingTactic, chat, plain,
  munge, eschew, no_tactic, chat_lines_stripped, quotation_matches_query_params,
  check_file_permissions,
}
use irc_bot_rs.Quote.Database.{DirEntry, QuotationFileIr, LoadEnv, on_load}
use irc_bot_rs.Quote.Database.Loading.{Loads, on_load-Loads, on_load-IsConsistent}
use irc_bot_rs.Quote.Database.Numbering.{expected_files}
use irc_bot_rs.Quote.Database.View.{IsConsistent}
use irc_bot_rs.Quote.Handlers.{quote, default_params}
use irc_bot_rs.Quote.Handlers.Posting.{IsPosted, IsUrlOfOne, quote-IsPosted}
use irc_bot_rs.Quote.Handlers.Reply.{quote-Shows, ShowsOneAskedFor}
use irc_bot_rs.Quote.Id.{print_id}
use irc_bot_rs.Quote.Lines.{IsMetadata, total-chat_lines_stripped}
use irc_bot_rs.Quote.Params.{prepare_quote_params}
use irc_bot_rs.Quote.Params.Laws.{
  AreGiven, prepare_quote_params-new_builder, prepare_quote_params_admin,
}
use irc_bot_rs.Quote.Pick.{
  QuoteEnv, QuotationChoice, text, candidates, pick_quotation, get_quotation_by_user_specified_id,
}
use irc_bot_rs.Quote.Pick.ById.{get_quotation_by_user_specified_id-print_id}
use irc_bot_rs.Quote.Pick.Choice.{
  IsFair, IsPicked, IsVisible, IsShownAs, pick_quotation-IsShownAs, pick_quotation_shown,
}
use irc_bot_rs.Quote.Render.{render_quotation, rendered_quotation_byte_len}
use irc_bot_rs.Quote.Render.Munging.{without_zwsp}
use irc_bot_rs.Quote.Render.Laws.{render_quotation_for_users, plain_rendering}
use irc_bot_rs.Tests.Data.{env, state, server_id, plain_regex, dest, from}

-- No line has metadata.
abbrev no_metadata : Text → Option ℕ
no_metadata line = some 0

no_metadata-IsMetadata : IsMetadata no_metadata
no_metadata-IsMetadata line = ([], line, refl, refl, refl)

abbrev q_env : QuoteEnv
q_env = record {
  env = env;
  find_metadata = no_metadata;
  debug_assertions = true;
  rand_iter = λ qs. qs;
  list_users = λ client target. none;
  parse_tactic = λ t. ok eschew;
  display_parse_error = λ e. codes "no number";
  five_number_summary = λ ns. [];
}

fair : IsFair q_env
fair qs q = (λ h. h, λ h. h)

abbrev quotation : ℕ → Text → Quotation
quotation id t = record {
  id = id;
  file_id = 0;
  format = chat;
  text = t;
  tags = [];
  url = none;
  anti_ping_tactic = munge;
}

abbrev hi : Quotation
hi = quotation 0 (codes "<ann> hi")

abbrev yo : Quotation
yo = quotation 1 (codes "<bob> yo")

abbrev qdb : QuotationDatabase
qdb = record {
  files =
      (record {
        name = codes "f";
        file_id = 0;
        channels_regex = plain_regex (codes "#a");
        quotation_count = 2;
      })
      ∷ [];
  quotations = hi ∷ yo ∷ [];
}

qdb-IsConsistent : IsConsistent qdb
qdb-IsConsistent = record {
  ids = (refl, (refl, tt));
  file_ids = (refl, tt);
  in_files = (omega arith, (omega arith, tt));
  counts = (refl, tt);
}

abbrev lock : Lock QuotationDatabase
lock = record { content = qdb; poisoned = false }

abbrev ctx : HandlerContext
ctx = record { state = state; request_origin = dest; invoker = (from (codes "ann")).prefix }

abbrev boss : HandlerContext
boss = record { state = state; request_origin = dest; invoker = (from (codes "boss")).prefix }

-- One file with a quotation, and one that is hidden.
abbrev load_env : LoadEnv
load_env = record {
  exists = λ path. true;
  walk = λ path.
      ok (record {
        is_file = true;
        file_name = codes "f";
        content = ok (record {
          channels = plain_regex (codes "#a");
          format = chat;
          anti_ping_tactic = munge;
          quotations =
              (record {
                format = none;
                text = codes "<ann> hi";
                tags = [];
                url = none;
                anti_ping_tactic = some eschew;
              })
              ∷ [];
        });
      })
      ∷ ok (record { is_file = true; file_name = codes ".g"; content = err (io []) })
      ∷ [];
  sort_tags = λ tags. tags;
  debug_assertions = true;
}

on_load-Loads_example :
    Loads (on_load load_env state lock) (expected_files load_env (load_env.walk []))
on_load-Loads_example = on_load-Loads load_env state lock refl refl (omega arith)

on_load-IsConsistent_example :
    IsConsistent (on_load load_env state lock).1.content
    × ((on_load load_env state lock).1.poisoned ≡ false)
    × ((on_load load_env state lock).0 ≢ panicked)
on_load-IsConsistent_example = on_load-IsConsistent load_env state lock qdb-IsConsistent

get_quotation_by_user_specified_id-print_id_example :
    get_quotation_by_user_specified_id q_env qdb (print_id 1) ≡ got yo
get_quotation_by_user_specified_id-print_id_example =
    get_quotation_by_user_specified_id-print_id q_env qdb 1 yo qdb-IsConsistent (omega arith) refl

total-chat_lines_stripped_example :
    total b'<' (chat_lines_stripped no_metadata hi) ≡ count b'<' (codes "<ann> hi")
total-chat_lines_stripped_example = total-chat_lines_stripped no_metadata no_metadata-IsMetadata hi

render_quotation_for_users_example :
    (t : Text) × (render_quotation no_metadata true default_params hi (codes "ann" ∷ []) ≡ done t)
    × (without_zwsp t ≡ without_zwsp (plain_rendering no_metadata hi))
    × (len (plain_rendering no_metadata hi) ≡ rendered_quotation_byte_len no_metadata hi)
render_quotation_for_users_example =
    render_quotation_for_users no_metadata true default_params hi (codes "ann" ∷ []) refl

-- An argument with a regex, and with a tactic.
abbrev params : QuoteParams
params = record default_params { regexes = plain_regex_term ∷ []; anti_ping_tactic = some eschew }
  where
    plain_regex_term : RegexBuilder
    plain_regex_term = new_builder (codes "ann")

abbrev arg : Fields
arg =
    field (string (codes "r")) (string (codes "ann"))
      (field (string (codes "anti-ping tactic")) (string (codes "eschew")) end)

read_params : prepare_quote_params q_env boss (hash arg) ≡ got params
unfolding prepare_quote_params have_admin irc_bot_rs.Util.Yaml.get
    irc_bot_rs.Util.Yaml.get_arg_by_short_or_long_key irc_bot_rs.Util.Yaml.iter_as_seq
    irc_bot_rs.Util.Yaml.scalar_to_str
read_params = refl

prepare_quote_params-new_builder_example :
    (ts : List Text) × AreGiven q_env arg ts
    × (params.regexes ≡ map new_builder ts)
    × All (λ r. r.case_insensitive ≡ false) params.regexes
prepare_quote_params-new_builder_example =
    prepare_quote_params-new_builder q_env boss arg params read_params

prepare_quote_params_admin_example : have_admin state boss.invoker ≡ true
prepare_quote_params_admin_example =
    prepare_quote_params_admin q_env boss arg params eschew read_params refl

-- What is picked, and what is replied.
picked : pick_quotation q_env ctx default_params dest qdb [] ≡ got (text hi)
unfolding pick_quotation irc_bot_rs.Core.Reply.privmsg_content_max_len
    irc_bot_rs.Core.State.prefix_len irc_bot_rs.Core.Prefix.owning_len
    irc_bot_rs.Quote.quotation_matches_query_params irc_bot_rs.Text.lines irc_bot_rs.Text.trim
    irc_bot_rs.Text.drop_bytes irc_bot_rs.Text.trim_start_text
    irc_bot_rs.Quote.check_file_permissions irc_bot_rs.Text.contains rendered_quotation_byte_len
    irc_bot_rs.Quote.quotation_byte_len print_id
picked = refl

replied : quote q_env ctx lock (hash end) ≡ got (Reaction.msg (codes "[0] <ann> hi"))
unfolding quote prepare_quote_params irc_bot_rs.Util.Yaml.get
    irc_bot_rs.Util.Yaml.get_arg_by_short_or_long_key irc_bot_rs.Util.Yaml.iter_as_seq
    irc_bot_rs.Core.Handler.context_reply_dest irc_bot_rs.Core.Reply.guess_reply_dest
    irc_bot_rs.Core.State.nick irc_bot_rs.Core.Prefix.parse irc_bot_rs.Text.splitn_2
    irc_bot_rs.Text.rsplitn_2 irc_bot_rs.Quote.Database.read_qdb irc_bot_rs.Core.State.aatxe_client
    irc_bot_rs.BTree.lookup pick_quotation irc_bot_rs.Core.Reply.privmsg_content_max_len
    irc_bot_rs.Core.State.prefix_len irc_bot_rs.Core.Prefix.owning_len
    irc_bot_rs.Quote.quotation_matches_query_params irc_bot_rs.Text.lines irc_bot_rs.Text.trim
    irc_bot_rs.Text.drop_bytes irc_bot_rs.Text.trim_start_text
    irc_bot_rs.Quote.check_file_permissions irc_bot_rs.Text.contains rendered_quotation_byte_len
    irc_bot_rs.Quote.quotation_byte_len print_id render_quotation irc_bot_rs.Util.Munge.zwsp_munge
    irc_bot_rs.Util.Munge.collect_all irc_bot_rs.Text.slice irc_bot_rs.Text.take_bytes
replied = refl

quote-Shows_example :
    ShowsOneAskedFor q_env ctx lock (hash end) (Reaction.msg (codes "[0] <ann> hi"))
quote-Shows_example =
    quote-Shows q_env ctx lock (hash end) (Reaction.msg (codes "[0] <ann> hi")) fair replied

abbrev ann : OwningMsgPrefix
ann = record { backing = codes "ann!u@h" }

quote-IsPosted_example :
    IsPosted q_env lock
      (hash end)
      state
      server_id
      ann
      (codes "#a")
      (codes "bot")
      dest
      (codes "[0] <ann> hi")
    ⊎ IsUrlOfOne q_env lock
        (hash end)
        state
        server_id
        ann
        (codes "#a")
        (codes "bot")
        dest
        (codes "[0] <ann> hi")
unfolding irc_bot_rs.Core.Handler.context_reply_dest irc_bot_rs.Core.Reply.guess_reply_dest
    irc_bot_rs.Core.State.nick irc_bot_rs.Core.Prefix.parse irc_bot_rs.Text.splitn_2
    irc_bot_rs.Text.rsplitn_2 irc_bot_rs.Text.lines irc_bot_rs.Text.trim
quote-IsPosted_example =
    quote-IsPosted q_env lock (hash end) state server_id ann (codes "#a") (codes "bot") dest
      (codes "[0] <ann> hi") fair refl refl replied refl refl refl (omega arith)

pick_quotation-IsShownAs_example : IsPicked q_env ctx default_params dest qdb [] (text hi)
pick_quotation-IsShownAs_example =
    pick_quotation-IsShownAs q_env ctx default_params dest qdb [] (text hi) fair picked

-- The limit of the channel, and the second quotation, which can be shown.
limit : privmsg_content_max_len env state dest ≡ done 489
unfolding privmsg_content_max_len irc_bot_rs.Core.State.prefix_len irc_bot_rs.Core.Prefix.owning_len
limit = refl

yo-IsVisible : IsVisible q_env default_params [] (true ∷ []) 489 yo
unfolding quotation_matches_query_params irc_bot_rs.Text.lines irc_bot_rs.Text.trim
    irc_bot_rs.Text.drop_bytes irc_bot_rs.Text.trim_start_text
yo-IsVisible = (refl, refl)

yo_shown : IsShownAs q_env default_params [] (true ∷ []) 489 yo (text yo)
unfolding rendered_quotation_byte_len irc_bot_rs.Quote.quotation_byte_len irc_bot_rs.Text.lines
    irc_bot_rs.Text.trim irc_bot_rs.Text.drop_bytes irc_bot_rs.Text.trim_start_text print_id
yo_shown = (refl, omega arith, refl)

asked_for : candidates q_env default_params qdb ≡ got (hi ∷ yo ∷ [])
unfolding candidates
asked_for = refl

pick_quotation_shown_example :
    (d : QuotationChoice) × (pick_quotation q_env ctx default_params dest qdb [] ≡ got d)
unfolding check_file_permissions contains
pick_quotation_shown_example =
    pick_quotation_shown q_env ctx default_params dest qdb [] 489 (hi ∷ yo ∷ []) yo (text yo) fair
      limit asked_for (hi ∷ [], [], refl) yo-IsVisible yo_shown
