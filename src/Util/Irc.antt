-- ===== src/Util/Irc.antt =====
-- src/util/irc/mod.rs: case-folding and the names of channels.
pub mod Order
use Prim.Native.Nat.{Ordering, compare}
use irc_bot_rs.Base.{
  ℕ, ◌+◌, Bool, true, false, ◌&&◌, Option, none, some, List, [], ◌∷◌, map, leb, ◌==◌, if◌then◌else◌,
  Result, ok, err,
}
use irc_bot_rs.BTree.{Ord}
use irc_bot_rs.BTree.Keys.{text_ord}
use irc_bot_rs.Text.{Text, codes}
use irc_bot_rs.Util.Regex.{RegexConfig, RegexCrate, builder_from_str}

-- `make_ascii_lowercase`, on one character
abbrev pub to_ascii_lowercase : ℕ → ℕ
to_ascii_lowercase c = if leb b'A' c && leb c b'Z' then c + 32 else c

-- `finish_irc_lowercasing`, on one character. The bytes of other characters are none of these.
abbrev pub finish_irc_lowercasing : ℕ → ℕ
finish_irc_lowercasing c =
    if c == b'['
    then b'{'
    else if c == b']'
    then b'}'
    else if c == b'\\'
    then b'|'
    else if c == b'~'
    then b'^'
    else c

abbrev pub fold_char : ℕ → ℕ
fold_char c = finish_irc_lowercasing (to_ascii_lowercase c)

abbrev pub fold : Text → Text
fold = map fold_char

-- The order of the bytes of UTF-8 is the order of the characters.
unfoldable pub case_insensitive_str_cmp : Text → Text → Ordering
case_insensitive_str_cmp x y = text_ord.cmp (fold x) (fold y)

-- `ChannelName`
pub record ChannelName : Type 0 where
  pub name : Text

abbrev pub channel_name_regex : Text
channel_name_regex =
    codes
      "(?:[#&+]|![[:upper:][:digit:]]{5})[^\\x00\\a\\r\\n ,:]{0,49}(?::[^\\x00\\a\\r\\n ,:]{0,49})?"

-- `ChannelName::new`; the regex is built with the configuration of `util::regex::Regex`.
unfoldable pub channel_name : RegexCrate → RegexConfig → Text → Result Text ChannelName
channel_name crate config name =
    if crate.is_match (builder_from_str config channel_name_regex) name
    then ok (record { name = name })
    else err name

-- `Ord for ChannelName`
unfoldable pub channel_name_cmp : ChannelName → ChannelName → Ordering
unfolding case_insensitive_str_cmp
channel_name_cmp a b = case_insensitive_str_cmp a.name b.name

unfoldable pub channel_name_eq : ChannelName → ChannelName → Bool
unfolding channel_name_cmp
channel_name_eq a b = elim (channel_name_cmp a b) [ Ordering.eq ↦ true | _ ↦ false ]
