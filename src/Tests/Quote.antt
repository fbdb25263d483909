-- ===== src/Tests/Quote.antt =====
-- Quotations of both formats.
use irc_bot_rs.Base.{ℕ, ◌≡◌, refl, true, not, ◌&&◌, Option, none, some, [], ◌∷◌, is_nil, any, all}
use irc_bot_rs.Text.{Text, codes, len, text_eq, contains}
use irc_bot_rs.Quote.{
  Quotation, QuoteParams, chat, munge, haystacks, quotation_matches_query_params,
}
use irc_bot_rs.Quote.Query.{quotation_matches_query_params-all}
use irc_bot_rs.Tests.Data.{regex, plain_regex}

-- Lines of the form `12:00 <nick> text`: what stands before the sixth byte is metadata.
abbrev sixth : Text → Option ℕ
sixth line = some 6

abbrev talk : Quotation
talk = record {
  id = 0x1A;
  file_id = 0;
  format = chat;
  text = codes "12:00 <a> hi\n12:01 <b> yo";
  tags = codes "t" ∷ [];
  url = none;
  anti_ping_tactic = munge;
}

abbrev params : QuoteParams
params = record {
  regexes = plain_regex (codes "yo") ∷ [];
  literals = codes "hi" ∷ [];
  tags = codes "t" ∷ [];
  id = none;
  anti_ping_tactic = none;
}

quotation_matches_query_params-all_example :
    quotation_matches_query_params regex params sixth talk
    ≡ all (λ wanted. any (λ found. text_eq found wanted) talk.tags) params.tags
      && (not (is_nil (haystacks sixth talk))
          && (all (λ r. any (λ h. regex.is_match r h) (haystacks sixth talk)) params.regexes
              && all (λ l. any (λ h. contains h l) (haystacks sixth talk)) params.literals))
quotation_matches_query_params-all_example =
    quotation_matches_query_params-all regex params sixth talk

-- The same query, run: the terms are found in different lines.
found_in_lines : quotation_matches_query_params regex params sixth talk ≡ true
unfolding quotation_matches_query_params irc_bot_rs.Text.lines irc_bot_rs.Text.trim
    irc_bot_rs.Text.drop_bytes irc_bot_rs.Text.trim_start_text contains
found_in_lines = refl
