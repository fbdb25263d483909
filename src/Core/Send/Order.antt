-- ===== src/Core/Send/Order.antt =====
-- The order in which messages are sent.
use irc_bot_rs.Base.{
  ℕ, ◌≡◌, refl, sym, ap, inl, inr, false, Option, Option-cases, none, some, List, [], ◌∷◌, ◌++◌,
  map, on_option,
}
use irc_bot_rs.BTree.{lookup}
use irc_bot_rs.BTree.Keys.{server_id_ord}
use irc_bot_rs.Core.Jobs.{handle_err}
use irc_bot_rs.Core.Env.{Env}
use irc_bot_rs.Core.Err.{Error, done}
use irc_bot_rs.Core.Irc.{Message}
use irc_bot_rs.Core.Reaction.{
  LibReaction, LibReactions, raw_msg, multi, nil, cons, flatten, flatten_all,
}
use irc_bot_rs.Core.State.{State}
use irc_bot_rs.Core.World.{OutboxRecord}
use irc_bot_rs.Core.Send.{
  Sent, process_outgoing_msg, retry, send_msg, send_reaction, send_reactions, send_record,
  send_main,
}

-- The handler of errors lets the bot go on after every error of sending.
abbrev pub Proceeds : Env → (ℕ → Message → Option Error) → Type 0
Proceeds env send =
    (client : ℕ) (m : Message) (e : Error) → send client m ≡ some e → handle_err env e ≡ none

abbrev pub to_client : ℕ → List Message → List Sent
to_client client = map λ m. (client, m)

to_client-append :
    (client : ℕ) (a b : List Message)
    → to_client client (a ++ b) ≡ to_client client a ++ to_client client b
to_client-append client [] b = refl
to_client-append client (m ∷ a) b = ap (λ x. (client, m) ∷ x) (to_client-append client a b)

send_msg_once :
    (env : Env) (send : ℕ → Message → Option Error) (client : ℕ) (m : Message)
    → Proceeds env send
    → send_msg env send client m ≡ (client, m) ∷ []
unfolding send_msg retry
send_msg_once env send client m p = elim (Option-cases (send client m)) [
  | inl n ↦ rw n refl
  | inr (e, h) ↦ rw (h, p client m e h) refl
]

mutual
  unfolding send_reaction

  send_reaction-flatten :
      (env : Env) (send : ℕ → Message → Option Error) (client : ℕ) (r : LibReaction Message)
      → Proceeds env send
      → send_reaction env send client r ≡ to_client client (flatten r)
  send_reaction-flatten env send client (raw_msg m) p = send_msg_once env send client m p
  send_reaction-flatten env send client (multi rs) p = send_reactions-flatten env send client rs p

  send_reactions-flatten :
      (env : Env) (send : ℕ → Message → Option Error) (client : ℕ) (rs : LibReactions Message)
      → Proceeds env send
      → send_reactions env send client rs ≡ to_client client (flatten_all rs)
  send_reactions-flatten env send client nil p = refl
  send_reactions-flatten env send client (cons r rs) p =
      rw (send_reaction-flatten env send client r p, send_reactions-flatten env send client rs p)
        (sym (to_client-append client (flatten r) (flatten_all rs)))

-- The messages of a record for its connection; none for an unknown server.
abbrev pub record_messages : State → OutboxRecord → List Sent
record_messages s r =
    on_option (lookup r.server_id s.aatxe_clients.content) []
      λ client. to_client client (flatten r.output)

abbrev pub all_messages : State → List OutboxRecord → List Sent
all_messages s [] = []
all_messages s (r ∷ rs) = record_messages s r ++ all_messages s rs

send_record-messages :
    (env : Env) (send : ℕ → Message → Option Error) (s : State) (r : OutboxRecord)
    → Proceeds env send
    → s.aatxe_clients.poisoned ≡ false
    → send_record env send s r ≡ done (record_messages s r)
unfolding send_record process_outgoing_msg
send_record-messages env send s r p c =
    elim (Option-cases (lookup r.server_id s.aatxe_clients.content)) [
      | inl n ↦ rw (c, n) refl
      | inr (client, m) ↦ rw (c, m) (ap done (send_reaction-flatten env send client r.output p))
    ]

-- If the lock of the connections is not poisoned, and the bot goes on after every error of sending,
-- the sending thread gives every message of the records to the connection of its server, in the
-- order of the records and, within a record, of its reactions; records for unknown servers are
-- dropped, and an error of sending one message stops none of the others.
pub send_main-order :
    (env : Env) (send : ℕ → Message → Option Error) (s : State) (rs : List OutboxRecord)
    → Proceeds env send
    → s.aatxe_clients.poisoned ≡ false
    → send_main env send s rs ≡ (all_messages s rs, done tt)
unfolding send_main
send_main-order env send s [] p c = refl
send_main-order env send s (r ∷ rs) p c =
    rw (send_record-messages env send s r p c, send_main-order env send s rs p c) refl
