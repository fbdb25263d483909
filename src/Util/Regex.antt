-- ===== src/Util/Regex.antt =====
-- src/util/regex.rs: how the text of a regular expression becomes a builder of the crate `regex`.
-- The engine itself is a parameter of what matches texts.
use irc_bot_rs.Base.{ℕ, ◌^◌, Bool, true, false, Option, none, some, ◌++◌}
use irc_bot_rs.Text.{Text, codes}

-- What the code sets of a `RegexBuilder`; an unset size limit is the crate's default.
pub record RegexBuilder : Type 0 where
  pub pattern : Text
  pub case_insensitive : Bool
  pub size_limit : Option ℕ
  pub dfa_size_limit : Option ℕ

-- The types of the module `config`, each over its `Base`.
pub data RegexConfig : Type 0 where
  standard : RegexConfig
  anchored : RegexConfig → RegexConfig
  case_insensitive : RegexConfig → RegexConfig
  size_limit : RegexConfig → RegexConfig

abbrev pub regex_size_limit : ℕ
regex_size_limit = 2 ^ 17

abbrev pub regex_anchor_start : Text
regex_anchor_start = codes "\\A(?:"

abbrev pub regex_anchor_end : Text
regex_anchor_end = codes ")\\z"

-- `RegexBuilder::new`
abbrev pub new_builder : Text → RegexBuilder
new_builder input = record {
  pattern = input;
  case_insensitive = false;
  size_limit = none;
  dfa_size_limit = none;
}

unfoldable pub builder_from_str : RegexConfig → Text → RegexBuilder
builder_from_str standard input = new_builder input
builder_from_str (anchored base) input =
    builder_from_str base (regex_anchor_start ++ input ++ regex_anchor_end)
builder_from_str (case_insensitive base) input = record (builder_from_str base input) {
  case_insensitive = true;
}
builder_from_str (size_limit base) input = record (builder_from_str base input) {
  size_limit = some regex_size_limit;
  dfa_size_limit = some regex_size_limit;
}

-- The builder of `mk_case_insensitive_regex`, which `into_regex_ci` uses for a text.
unfoldable pub mk_case_insensitive_regex : Text → RegexBuilder
mk_case_insensitive_regex s = record (new_builder s) {
  case_insensitive = true;
  size_limit = some regex_size_limit;
  dfa_size_limit = some regex_size_limit;
}

-- What the code calls of the crate `regex`: `build` (`none` is an error), `is_match`, and the end of
-- the match of `find` for a pattern that is anchored at the start.
pub record RegexCrate : Type 0 where
  pub builds : RegexBuilder → Bool
  pub is_match : RegexBuilder → Text → Bool
