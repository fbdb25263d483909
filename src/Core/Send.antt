-- ===== src/Core/Send.antt =====
-- The sending thread (src/core/irc_send.rs): what the connections are given to send.
pub mod Order
use irc_bot_rs.Base.{
  ℕ, Bool, true, false, Option, none, some, List, [], ◌∷◌, ◌++◌, on_option, if◌then◌else◌,
}
use irc_bot_rs.Text.{Text, codes}
use irc_bot_rs.BTree.{lookup}
use irc_bot_rs.BTree.Keys.{server_id_ord}
use irc_bot_rs.Core.Jobs.{handle_err}
use irc_bot_rs.Core.Env.{Env}
use irc_bot_rs.Core.Err.{Error, lock_poisoned, Outcome, done, failed, panicked, out_of_fuel}
use irc_bot_rs.Core.Irc.{Message}
use irc_bot_rs.Core.Reaction.{LibReaction, LibReactions, raw_msg, multi, nil, cons}
use irc_bot_rs.Core.State.{State}
use irc_bot_rs.Core.World.{OutboxRecord}

-- A connection, by its number, and what it was given.
abbrev pub Sent : Type 0
Sent = ℕ × Message

-- `process_outgoing_msg` lets everything through.
unfoldable pub process_outgoing_msg : OutboxRecord → Option OutboxRecord
process_outgoing_msg r = some r

-- `send` of a connection, which yields an error or nothing, is a parameter.
-- What was sent, and how the thread ended
abbrev pub SendResult : Type 0
SendResult = List Sent × Outcome {0} Unit

-- `?` in the loop: what was sent stays sent.
abbrev pub after : Outcome (List Sent) → SendResult → SendResult
after (done now) (later, o) = (now ++ later, o)
after (failed e) rest = ([], failed e)
after panicked rest = ([], panicked)
after out_of_fuel rest = ([], out_of_fuel)

module _ (env : Env) (send : ℕ → Message → Option Error) where
  -- The reaction to an error of sending, whose own errors are only logged. `handle_err` yields a `QUIT`
  -- or nothing, never several reactions.
  unfoldable pub retry : ℕ → Option (LibReaction Message) → List Sent
  retry client none = []
  retry client (some (raw_msg m)) = (client, m) ∷ []
  retry client (some (multi rs)) = []

  unfoldable pub send_msg : ℕ → Message → List Sent
  unfolding retry
  send_msg client m =
      (client, m) ∷ on_option (send client m) [] λ e. retry client (handle_err env e)

  -- `send_reaction`, with `send_reaction_with_err_cb`
  unfoldable mutual
    unfolding send_msg

    pub send_reaction : ℕ → LibReaction Message → List Sent
    send_reaction client (raw_msg m) = send_msg client m
    send_reaction client (multi rs) = send_reactions client rs

    pub send_reactions : ℕ → LibReactions Message → List Sent
    send_reactions client nil = []
    send_reactions client (cons r rs) = send_reaction client r ++ send_reactions client rs

  -- One round of the loop of `send_main`. A record for an unknown server is dropped.
  unfoldable pub send_record : State → OutboxRecord → Outcome (List Sent)
  unfolding process_outgoing_msg send_reaction
  send_record s r = on_option (process_outgoing_msg r) (done []) λ r'.
      if s.aatxe_clients.poisoned
      then failed (lock_poisoned (codes "the associative array of IRC connections"))
      else on_option (lookup r'.server_id s.aatxe_clients.content) (done [])
          λ client. (done (send_reaction client r'.output))

  -- The loop; a poisoned lock ends the thread.
  unfoldable pub send_main : State → List OutboxRecord → SendResult
  unfolding send_record
  send_main s [] = ([], done tt)
  send_main s (r ∷ rest) = after (send_record s r) (send_main s rest)
