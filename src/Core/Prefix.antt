-- ===== src/Core/Prefix.antt =====
-- src/core/irc_msgs.rs: message prefixes and messages that are addressed to the bot.
use irc_bot_rs.Base.{
  ℕ, ◌+◌, Bool, true, false, ◌&&◌, ◌||◌, Option, none, some, List, [], ◌∷◌, ◌++◌, ◌==◌,
  if◌then◌else◌, unwrap_or, is_nil,
}
use irc_bot_rs.Text.{
  Text, codes, len, text_eq, starts_with, find_from, splitn_2, rsplitn_2, trim_start_by,
  trim_start_text, trim,
}
pub mod RoundTrip
pub mod Addressing

pub record MsgPrefix : Type 0 where
  pub nick : Option Text
  pub user : Option Text
  pub host : Option Text

-- The field `backing` of an `OwningMsgPrefix`.
pub record OwningMsgPrefix : Type 0 where
  pub backing : Text

abbrev pub is_at : ℕ → Bool
is_at c = c == b'@'

abbrev pub is_bang : ℕ → Bool
is_bang c = c == b'!'

-- `[':', ','].contains(&c)`
abbrev pub is_separator : ℕ → Bool
is_separator c = (c == b':') || (c == b',')

abbrev pub some_index_eq : Option ℕ → ℕ → Bool
some_index_eq none n = false
some_index_eq (some i) n = i == n

unfoldable pub is_msg_to_nick : Text → Text → Text → Bool
is_msg_to_nick target msg nick =
    text_eq target nick
    || text_eq msg nick
    || (starts_with msg nick && some_index_eq (find_from 0 is_separator msg) (len nick))

unfoldable pub parse_msg_to_nick : Text → Text → Text → Option Text
parse_msg_to_nick text target nick =
    if is_msg_to_nick target text nick
    then some (trim (trim_start_by is_separator (trim_start_text text nick)))
    else none

-- The host is what `rsplitn` yields first; nick and user come from the rest, or from "".
unfoldable pub parse_prefix : Text → MsgPrefix
parse_prefix prefix =
    let (host, rest) = rsplitn_2 is_at prefix in
    let (nick, user) = splitn_2 is_bang (unwrap_or rest []) in
    record { nick = some nick; user = user; host = some host }

unfoldable pub component_len : Option Text → ℕ
component_len none = 0
component_len (some s) = len s

-- `MsgPrefix::len`
unfoldable pub prefix_len : MsgPrefix → ℕ
unfolding component_len
prefix_len p = component_len p.nick + component_len p.user + component_len p.host + 2

abbrev pub no_host : Text
no_host = codes "@prefix-has-user-without-host.invalid"

-- The match of `fmt_write` on the user and the host.
fmt_rest : Text → Text → Text
fmt_rest [] [] = []
fmt_rest [] (h ∷ host) = b'@' ∷ h ∷ host
fmt_rest (u ∷ user) [] = b'!' ∷ (u ∷ user) ++ no_host
fmt_rest (u ∷ user) (h ∷ host) = b'!' ∷ (u ∷ user) ++ b'@' ∷ h ∷ host

-- What `MsgPrefix::fmt_write` writes, and `to_owning` keeps.
unfoldable pub fmt_write : MsgPrefix → Text
unfolding fmt_rest
fmt_write p = unwrap_or p.nick [] ++ fmt_rest (unwrap_or p.user []) (unwrap_or p.host [])

unfoldable pub to_owning : MsgPrefix → OwningMsgPrefix
unfolding fmt_write
to_owning p = record { backing = fmt_write p }

unfoldable pub parse : OwningMsgPrefix → MsgPrefix
unfolding parse_prefix
parse o = parse_prefix o.backing

-- `OwningMsgPrefix::len`
unfoldable pub owning_len : OwningMsgPrefix → ℕ
owning_len o = len o.backing

abbrev pub updated : Option Text → Option Text → Text
updated old (some s) = s
updated (some s) none = s
updated none none = []

unfoldable pub update_from : OwningMsgPrefix → MsgPrefix → OwningMsgPrefix
unfolding parse
update_from o new =
    let old = parse o in
    record {
      backing =
          updated old.nick new.nick
          ++ b'!' ∷ (updated old.user new.user ++ b'@' ∷ updated old.host new.host);
    }
