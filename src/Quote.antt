-- ===== src/Quote.antt =====
-- The quotation module (src/modules/quote.rs): the lines of a quotation, its length, and which
-- quotations match a query.
pub mod Commands
pub mod Database
pub mod Handlers
pub mod Id
pub mod Length
pub mod Lines
pub mod Params
pub mod Pick
pub mod Query
pub mod Render
use irc_bot_rs.Base.{
  ℕ, zero, suc, ◌+◌, ◌-◌, Bool, true, false, not, ◌&&◌, ◌||◌, Option, none, some, List, [], ◌∷◌,
  ◌++◌, map, if◌then◌else◌, on_option, ◌>>=?◌, is_nil, any, all, length, replicate, get_elem?,
}
use irc_bot_rs.Text.{Text, codes, len, text_eq, trim, lines, drop_bytes, trim_start_text, contains}
use irc_bot_rs.Util.Regex.{RegexBuilder, RegexCrate}

pub data QuotationFormat : Type 0 where
  chat plain : QuotationFormat

pub data AntiPingTactic : Type 0 where
  munge eschew no_tactic : AntiPingTactic

pub record Quotation : Type 0 where
  pub id : ℕ
  pub file_id : ℕ
  pub format : QuotationFormat
  pub text : Text
  pub tags : List Text
  pub url : Option Text
  pub anti_ping_tactic : AntiPingTactic

pub record QuoteParams : Type 0 where
  pub regexes : List RegexBuilder
  pub literals : List Text
  pub tags : List Text
  pub id : Option Text
  pub anti_ping_tactic : Option AntiPingTactic

pub record QuotationFileMetadata : Type 0 where
  pub name : Text
  pub file_id : ℕ
  pub channels_regex : RegexBuilder
  pub quotation_count : ℕ

pub record QuotationDatabase : Type 0 where
  pub files : List QuotationFileMetadata
  pub quotations : List Quotation

-- `get_quotation_by_id`
unfoldable pub get_quotation_by_id : QuotationDatabase → ℕ → Option Quotation
get_quotation_by_id qdb id = get_elem? qdb.quotations id

-- `trim` and `filter(|line| !line.is_empty())`
abbrev pub trimmed_lines : List Text → List Text
trimmed_lines [] = []
trimmed_lines (l ∷ ls) =
    let rest = trimmed_lines ls in if is_nil (trim l) then rest else trim l ∷ rest

abbrev pub filter_map : (Text → Option Text) → List Text → List Text
filter_map f [] = []
filter_map f (l ∷ ls) = let rest = filter_map f ls in on_option (f l) rest λ m. m ∷ rest

unfoldable pub strip_quotation_lines : Quotation → (Text → Option Text) → List Text
strip_quotation_lines q f = trimmed_lines (filter_map f (trimmed_lines (lines q.text)))

abbrev pub sum_lens : List Text → ℕ
sum_lens [] = 0
sum_lens (l ∷ ls) = (len l + 1) + sum_lens ls

-- A match on the format
abbrev pub by_format : {A : Type 0} → QuotationFormat → A → A → A
by_format chat x y = x
by_format plain x y = y

-- `find_metadata` is where the match of `METADATA_REGEX` with a line ends.
module _ (find_metadata : Text → Option ℕ) where
  unfoldable pub strip_chat_metadata : Text → Option Text
  strip_chat_metadata line = find_metadata line >>=? λ end.
      on_option (drop_bytes end line) none λ rest. some (trim_start_text rest (codes ">"))

  unfoldable pub chat_lines_stripped : Quotation → List Text
  unfolding strip_quotation_lines strip_chat_metadata
  chat_lines_stripped q = strip_quotation_lines q strip_chat_metadata

  unfoldable pub quotation_byte_len : Quotation → ℕ
  unfolding chat_lines_stripped
  quotation_byte_len q = by_format q.format (sum_lens (chat_lines_stripped q) - 1) (len q.text)

  unfoldable pub quotation_text_contains_any : Quotation → List Text → Bool
  unfolding chat_lines_stripped
  quotation_text_contains_any q needles =
      by_format q.format
        (any (λ needle. any (λ line. contains line needle) (chat_lines_stripped q)) needles)
        (any (λ needle. contains q.text needle) needles)

  -- What the search terms are searched in, in order.
  abbrev pub haystacks : Quotation → List Text
  haystacks q = by_format q.format (chat_lines_stripped q) (q.text ∷ []) ++ q.tags

-- `check_search_terms`: the terms that are not yet matched are tried.
abbrev pub check_search_terms {ℓ} : {A : Type ℓ} → (A → Bool) → List A → List Bool → List Bool
check_search_terms p [] ms = ms
check_search_terms p (t ∷ ts) [] = []
check_search_terms p (t ∷ ts) (m ∷ ms) = (m || p t) ∷ check_search_terms p ts ms

abbrev pub all_true : List Bool → Bool
all_true [] = true
all_true (m ∷ ms) = m && all_true ms

module _ (crate : RegexCrate) (params : QuoteParams) where
  -- The loops over the haystacks, with the terms that are matched so far.
  unfoldable pub search : List Text → List Bool → List Bool → Bool
  search [] regexes_matched literals_matched = false
  search (h ∷ hs) regexes_matched literals_matched =
      let rs = check_search_terms (λ r. crate.is_match r h) params.regexes regexes_matched in
      let ls = check_search_terms (λ l. contains h l) params.literals literals_matched in
      let rest = search hs rs ls in if all_true rs && all_true ls then true else rest

  unfoldable pub quotation_matches_query_params : (Text → Option ℕ) → Quotation → Bool
  unfolding search chat_lines_stripped
  quotation_matches_query_params find_metadata q =
      all (λ wanted. any (λ found. text_eq found wanted) q.tags) params.tags
      && search (haystacks find_metadata q) (replicate (length params.regexes) false)
          (replicate (length params.literals) false)

-- `check_file_permissions`
unfoldable pub check_file_permissions : RegexCrate → List QuotationFileMetadata → Text → List Bool
check_file_permissions crate files target = map (λ f. crate.is_match f.channels_regex target) files
