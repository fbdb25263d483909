-- ===== src/Tests/Running.antt =====
-- Commands, triggers and the threads of the small bot.
use irc_bot_rs.Base.{◌≡◌, refl, inl, inr, true, false, Option, some, ok, [], ◌∷◌}
use mathlib.Core.List.{reverse}
use irc_bot_rs.Text.{Text, codes}
use irc_bot_rs.BTree.{lookup}
use irc_bot_rs.BTree.Keys.{text_ord, server_id_ord}
use irc_bot_rs.Util.Yaml.{hash, end}
use irc_bot_rs.Core.BotCmd.{run}
use irc_bot_rs.Core.BotCmd.Laws.{run_quit, Handlers, with_handlers, run_handlers}
use irc_bot_rs.Core.Comm.Threads.{ended, here, next, motd_finished_stays, MotdOver}
use irc_bot_rs.Core.ModlSys.{BotCmdAuthLvl, public, admin}
use irc_bot_rs.Core.Reaction.{Reaction, BotCmdResult}
use irc_bot_rs.Core.State.{BotCommand, have_admin, State, Trigger, Lock, Server}
use irc_bot_rs.Core.Trigger.{run_any_matching}
use irc_bot_rs.Core.Trigger.Choice.{IsFair, IsFound, IsAnswer, run_any_matching-IsFound}
use irc_bot_rs.Core.World.{World}
use irc_bot_rs.Tests.Data.{env, state, world, from, server_id, server}

run_quit_example :
    (c : BotCommand) × (lookup (codes "quit") state.commands ≡ some c)
    × (c.auth_lvl ≡ admin)
    × (have_admin state (from (codes "boss")).prefix ≡ true)
unfolding run lookup have_admin irc_bot_rs.Util.Yaml.Check.parse_and_check_node
    irc_bot_rs.Util.Yaml.Check.check_node
run_quit_example =
    run_quit env state (codes "quit") [] (from (codes "boss"))
      (BotCmdResult.ok (Reaction.quit (some (codes "quit")))) refl refl

abbrev if_public : {A : Type 0} → BotCmdAuthLvl → A → A → A
if_public public a b = a
if_public admin a b = b

-- Handlers that differ in the commands for admins.
abbrev others : Handlers
others s c dest p arg =
    if_public c.auth_lvl (env.run_command s c dest p arg)
      (ok (BotCmdResult.ok (Reaction.msg (codes "x"))))

run_handlers_example :
    run (with_handlers env others) state (codes "quit") [] (from (codes "eve"))
    ≡ run env state (codes "quit") [] (from (codes "eve"))
unfolding have_admin
run_handlers_example =
    run_handlers env others state (codes "quit") [] (from (codes "eve"))
      λ c arg u. elim u [ inl e ↦ rw e refl | inr a ↦ cc a ]

-- The order that the small bot draws is the order of the list.
fair : IsFair env
fair seed ts t = (λ h. h, λ h. h)

run_any_matching-IsFound_example :
    (t : Option Trigger) × IsFound env (codes "hi") (reverse state.triggers) t
    × IsAnswer env
        (codes "hi")
        (from (codes "eve"))
        t
        (some (BotCmdResult.ok (Reaction.msg (codes "b"))))
unfolding run_any_matching irc_bot_rs.Core.State.rng irc_bot_rs.Text.contains
run_any_matching-IsFound_example =
    run_any_matching-IsFound env state (codes "hi") (from (codes "eve"))
      (some (BotCmdResult.ok (Reaction.msg (codes "b")))) fair refl

abbrev finished : World
finished = record world {
  state = record state {
    servers =
        (server_id, record { content = record server { motd_finished = true }; poisoned = false })
        ∷ [];
  };
}

abbrev disconnected : World
disconnected = record finished { connected = false }

motd_finished_stays_example : MotdOver server_id disconnected.state
unfolding lookup
motd_finished_stays_example =
    motd_finished_stays env server_id finished (tt, tt)
      (record { content = record server { motd_finished = true }; poisoned = false }, refl, refl)
      disconnected (next finished disconnected here (ended finished))
