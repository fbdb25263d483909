-- ===== src/Quote/Commands.antt =====
-- The module `quote` (`mk`).
use irc_bot_rs.Base.{ℕ, []}
use irc_bot_rs.Text.{codes}
use irc_bot_rs.Util.Yaml.{YamlRust}
use irc_bot_rs.Core.Err.{Outcome, done, ◌>>=◌}
use irc_bot_rs.Core.ModlSys.{
  Module, Handler, public, admin, mk_module, add_command, add_on_load, end_module,
}

-- The handlers `on_load`, `quote`, `show_qdb_info` and `reload_qdb`, as numbers.
abbrev pub on_load_handler : Handler
on_load_handler = 0

abbrev pub quote_handler : Handler
quote_handler = 1

abbrev pub show_qdb_info_handler : Handler
show_qdb_info_handler = 2

abbrev pub reload_qdb_handler : Handler
reload_qdb_handler = 3

-- `mk`, with the random identifier of the module as an argument.
unfoldable pub mk : YamlRust → ℕ → Outcome Module
mk lib uuid = do
  b ←
      add_command lib (codes "quote")
        (codes "{regex: '[...]', string: '[...]', tag: '[...]', id: '[ID]'}")
        (codes
          "Request a quotation from the bot's database of quotations. For usage instructions, see the full documentation: <https://docs.rs/irc-bot/*/irc_bot/modules/fn.quote.html>.")
        public quote_handler (add_on_load on_load_handler (mk_module (codes "quote")))
  b' ←
      add_command lib (codes "quote-database-info") []
        (codes
          "Request information about the bot's database of quotations, such as the number of quotations in the database.")
        public show_qdb_info_handler b
  b'' ←
      add_command lib (codes "quote-database-reload") []
        (codes "Tell the bot to reload its quotation database.") admin reload_qdb_handler b'
  done (end_module uuid b'')
