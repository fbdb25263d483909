-- ===== src/Lib.antt =====
-- The IRC bot framework irc-bot.rs: its core, and the helpers the core rests on.
--
-- A bot is built from modules of commands and triggers (src/core/modl_sys.rs), which are loaded into a
-- state (src/core/mod.rs, src/core/state.rs) together with a validated configuration
-- (src/core/config.rs). Messages from a server are dispatched (src/core/irc_comm.rs): those that are
-- addressed to the bot (src/core/irc_msgs.rs) are handled in a thread of their own, which runs a command
-- (src/core/bot_cmd.rs) or a trigger (src/core/trigger.rs), turns its reaction into messages that are
-- wrapped to the length that IRC allows, and pushes them to a bounded outbox, which one sending thread
-- empties (src/core/irc_send.rs). Arguments of commands are YAML values that are checked against a syntax
-- (src/util/yaml.rs).
--
-- The files, and the code that they model:
--   Base: the names that all modules share, and lists and Rust's results.
--   Text: `str` as scalar values, with the byte lengths and byte indices of UTF-8 and the methods that the
--     bot calls; BTree: `BTreeMap` as a sorted list of entries.
--   Util.Yaml, Util.Yaml.Check: src/util/yaml.rs. The crate `yaml_rust` is the parameter `YamlRust`.
--   Util.Regex: the builders of src/util/regex.rs. The engine is the parameter `RegexCrate`.
--   Util.Munge: `zwsp_munge` and its iterator (src/util/mod.rs).
--   Util.Irc: case-folding and names of channels (src/util/irc/mod.rs).
--   Core.Prefix: prefixes and addressed messages (src/core/irc_msgs.rs).
--   Core.Err, Core.Reaction, Core.Irc: errors, reactions and messages as values (src/core/err.rs,
--     src/core/reaction.rs, src/core/bot_cmd.rs, src/core/irc_msgs.rs).
--   Core.PkgInfo: src/core/pkg_info.rs. Core.Config: src/core/config.rs.
--   Core.ModlSys, Core.Load: building and loading modules (src/core/modl_sys.rs).
--   Core.State: the state and its accessors (src/core/mod.rs, src/core/state.rs, src/util/lock.rs).
--   Core.Env: what the core calls that is not its own code, as one record: handlers, the crates `irc`,
--     `rando`, `regex` and `yaml_rust`, and the formatting of values.
--   Core.BotCmd: src/core/bot_cmd.rs. Core.Trigger: src/core/trigger.rs.
--   Core.Handler: the context that a handler gets, and code of the type `Result<_, BotCmdResult>`
--     (src/core/handler.rs, src/core/bot_cmd.rs).
--   Core.Wrap, Core.Reply: the composing of replies (the first half of src/core/irc_comm.rs).
--   Core.World: the state, the outbox and the threads that are running, and actions on them;
--   Core.Jobs: the thread of a message that is addressed to the bot, and `handle_err`; Core.Registration:
--     the registration with a server and the joining of channels; Core.Comm: the handling of all messages
--     (the second half of src/core/irc_comm.rs, and `handle_msg` and `handle_err` of src/core/mod.rs);
--     Core.Comm.Threads: the interleavings of the threads as steps, the run of a message's
--     thread as one.
--   Core.Send: the sending thread (src/core/irc_send.rs).
--   Core.Start: `State::new` and `run` (src/core/mod.rs), up to the state with which the reactor runs.
--   Quote: the data of quotations, their lines, lengths and queries (src/modules/quote.rs); where the
--     match of its `METADATA_REGEX` with a line ends is a parameter. Its children are parts of the same
--     file. Quote.Id: identifiers as they are printed and parsed; Quote.Database: loading, with the walk of
--     the directory as a parameter (`LoadEnv`), and Quote.Database.View, what a database holds without
--     its numbering; Quote.Params: the parameters of the command `quote`; Quote.Pick: the choice of a
--     quotation (`QuoteEnv` has what the code calls); Quote.Render: rendering; Quote.Handlers and
--     Quote.Commands: the three commands and the module.
--   Modules.Default, Modules.Test: src/modules/default.rs and src/modules/test.rs.
--   Tests: a small bot, and the theorems at concrete inputs.
--
-- Code that may return an error or panic has the type `Outcome`, and where the error is an answer of a
-- command, `Attempt`; a poisoned lock is a lock whose field says so. Code that changes the shared world
-- takes it and yields what it came to and the world it leaves, so that an error does not undo what was
-- done before. The loop of `wrap_msg` runs on fuel, one round more than the message has bytes: each
-- round ends at least one byte behind its start (Core.Wrap.Total). The items of `Munge` are collected in
-- two rounds for each point and two more (Util.Munge.Items). `trim_start_matches` runs on as many rounds
-- as the text has characters. Identifiers are printed in 16 rounds, one for each hexadecimal digit of a
-- 64-bit number, and decimal numbers in 20. Numbers that the code keeps in machine words are native
-- numbers; the one subtraction that can leave its type is written out with both of the profile's
-- behaviours (`usize_sub`).
--
-- Not modelled: reading and deserialising files (serde, walkdir), the reactor and the connections of the
-- crate `irc`, logging, the binary, the build script, the formatting of src/util/fmt.rs, and the handler
-- of src/modules/test.rs that is to exhaust the stack. The handlers that commands call are functions of
-- what they are given, and sleeping before joining channels has no effect on the state.
pub mod Base
pub mod Text
pub mod BTree
pub mod Util
pub mod Core
pub mod Tests
pub mod Quote
pub mod Modules
