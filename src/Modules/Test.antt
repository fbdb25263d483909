-- ===== src/Modules/Test.antt =====
-- The module `test` (src/modules/test.rs). Its command that overflows the stack is registered, but what
-- it does is not modelled: it ends the process.
use irc_bot_rs.Base.{ℕ, []}
use irc_bot_rs.Text.{Text, codes}
use irc_bot_rs.Util.Yaml.{YamlRust}
use irc_bot_rs.Core.Err.{Outcome, done, panicked, ◌>>=◌}
use irc_bot_rs.Core.ModlSys.{Module, admin, mk_module, add_command, add_on_load, end_module}
use irc_bot_rs.Core.Reaction.{Reaction, BotCmdResult, bot_err_msg}

abbrev pub lorem_ipsum_text : Text
lorem_ipsum_text =
    codes
      "Lorem ipsum dolor sit amet, consectetur adipiscing elit. Integer et tincidunt nibh. Nullam aliquet imperdiet cursus. Duis at turpis mollis, iaculis quam sed, efficitur arcu. Sed vel massa sit amet magna efficitur hendrerit. Donec auctor auctor ligula nec semper. Nulla a odio suscipit, suscipit velit in, ullamcorper velit. In bibendum pulvinar ipsum. Fusce elementum maximus mattis. Donec sed mauris nec ante eleifend dapibus non faucibus massa. Vivamus a auctor ligula. Cras hendrerit, velit sit amet sagittis placerat, elit elit feugiat quam, vel aliquet ligula elit sit amet nibh. Fusce dignissim, orci vitae sodales ornare, lacus risus facilisis sem, a imperdiet lectus massa at velit. Etiam sed magna congue, pulvinar diam quis, facilisis risus. Sed semper, lectus vulputate luctus fermentum, quam lacus consectetur arcu, ac mollis ipsum metus vel nunc. Ut posuere arcu enim, id dictum arcu sagittis in. Mauris a lectus nec ligula eleifend rutrum. Class aptent taciti sociosqu ad litora torquent per conubia massa nunc."

unfoldable pub test_line_wrap : Outcome BotCmdResult
test_line_wrap = done (BotCmdResult.ok (Reaction.reply lorem_ipsum_text))

unfoldable pub test_error_handling : Outcome BotCmdResult
test_error_handling = done (bot_err_msg (codes "An error for testing purposes."))

unfoldable pub test_panic_catching : Outcome BotCmdResult
test_panic_catching = panicked

-- `mk`; the handlers are numbered from that of `on_load`.
unfoldable pub mk : YamlRust → ℕ → Outcome Module
mk lib uuid = do
  b1 ←
      add_command lib (codes "test-line-wrap") []
        (codes "Request a long message from the bot, to test its line-wrapping function.") admin 1
        (add_on_load 0 (mk_module (codes "test")))
  b2 ←
      add_command lib (codes "test-error-handling") []
        (codes
          "This command's handler function returns an error, to test the bot framework's error-handling mechanism(s).")
        admin 2 b1
  b3 ←
      add_command lib (codes "test-panic-catching") []
        (codes
          "This command's handler function panics, to test the bot framework's panic-catching mechanism.")
        admin 3 b2
  b4 ←
      add_command lib (codes "test-stack-overflow") []
        (codes
          "This command's handler function allocates an enormous value on the stack, to test how the bot framework handles stack overflow in command handler functions. (Currently (October 2018), this simply makes the bot crash.)")
        admin 4 b3
  done (end_module uuid b4)
