-- ===== src/Tests/Names.antt =====
-- Prefixes of messages, and messages to the bot.
use irc_bot_rs.Base.{◌≤◌, ◌≡◌, refl, ◌↔◌, none, some, []}
use irc_bot_rs.Text.{Text, codes, len, trim, trim_start_by}
use irc_bot_rs.Core.Prefix.{
  MsgPrefix, parse, to_owning, update_from, fmt_write, prefix_len, is_separator, parse_msg_to_nick,
}
use irc_bot_rs.Core.Prefix.RoundTrip.{
  full, UserHasHost, parse-to_owning, parse-update_from, fmt_write-len,
}
use irc_bot_rs.Core.Prefix.Addressing.{parse_msg_to_nick_channel}

abbrev eve : MsgPrefix
eve = record { nick = some (codes "eve"); user = some (codes "u"); host = none }

parse-to_owning_example :
    parse (to_owning (full (codes "n") (codes "u") (codes "h")))
    ≡ full (codes "n") (codes "u") (codes "h")
parse-to_owning_example =
    parse-to_owning (codes "n") (codes "u") (codes "h") (refl, tt) (refl, tt) (λ e. cc) (λ e. cc)

parse-update_from_example :
    parse (update_from (record { backing = codes "bot!b@h" }) eve)
    ≡ full (codes "eve") (codes "u") (codes "h")
unfolding parse irc_bot_rs.Text.rsplitn_2
parse-update_from_example =
    parse-update_from (record { backing = codes "bot!b@h" }) eve (refl, (refl, (refl, tt))) tt

fmt_write-len_example : (len (fmt_write eve) ≤ prefix_len eve) ↔ UserHasHost (codes "u") []
fmt_write-len_example = fmt_write-len eve

parse_msg_to_nick_channel_example :
    parse_msg_to_nick (codes "bot: hi") (codes "#a") (codes "bot")
    ≡ some (trim (trim_start_by is_separator (codes " hi")))
parse_msg_to_nick_channel_example =
    parse_msg_to_nick_channel (codes "#a") (codes "bot") (codes " hi") b':' refl
      (refl, (refl, (refl, tt)))
