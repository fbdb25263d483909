-- ===== src/Core/World.antt =====
-- What the threads of the bot share: its state, the outbox (src/core/irc_send.rs) and the threads
-- that handle messages; and actions on it.
use irc_bot_rs.Base.{ℕ, Bool, Option, none, some, List, [], ◌∷◌, ◌++◌, leb, if◌then◌else◌, length}
use irc_bot_rs.Text.{Text}
use irc_bot_rs.Core.Err.{ServerId, Outcome, done, failed, panicked, out_of_fuel}
use irc_bot_rs.Core.Irc.{Message}
use irc_bot_rs.Core.Prefix.{OwningMsgPrefix}
use irc_bot_rs.Core.Reaction.{LibReaction}
use irc_bot_rs.Core.State.{State}

pub record OutboxRecord : Type 0 where
  pub server_id : ServerId
  pub output : LibReaction Message

-- What the thread that handles a message was given.
pub record Job : Type 0 where
  pub server_id : ServerId
  pub prefix : OwningMsgPrefix
  pub target : Text
  pub msg : Text
  pub bot_nick : Text

-- `connected` says that the sending thread still receives from the outbox.
pub record World : Type 0 where
  pub state : State
  pub outbox : List OutboxRecord
  pub connected : Bool
  pub jobs : List Job

-- What an action comes to, and the world that it leaves, whatever it comes to.
abbrev pub Ended : Type 0 → Type 0
Ended A = Outcome A × World

abbrev pub Act : Type 0 → Type 0
Act A = World → Ended A

abbrev pub pass : {A : Type 0} → A → Act A
pass a w = (done a, w)

abbrev pub lift : {A : Type 0} → (State → Outcome A) → Act A
lift f w = (f w.state, w)

abbrev pub and_then : {A B : Type 0} → Ended A → (A → Act B) → Ended B
and_then (done a, w) f = f a w
and_then (failed e, w) f = (failed e, w)
and_then (panicked, w) f = (panicked, w)
and_then (out_of_fuel, w) f = (out_of_fuel, w)

infixl 5 ◌>>=◌ ◌>>◌
abbrev pub ◌>>=◌ : {A B : Type 0} → Act A → (A → Act B) → Act B
(m >>= f) w = and_then (m w) f

abbrev pub ◌>>◌ : {A B : Type 0} → Act A → Act B → Act B
m >> k = m >>= λ _. k

-- `OUTBOX_SIZE`
abbrev pub outbox_size : ℕ
outbox_size = 1024

-- `push_to_outbox`. That `try_send` of a bounded channel of `crossbeam-channel` fails where the channel
-- holds as many records as its capacity, or has no receiver any more, is what its documentation says;
-- the code only logs that the record is dropped.
unfoldable pub push_to_outbox : ServerId → Option (LibReaction Message) → Act Unit
push_to_outbox server_id none w = (done tt, w)
push_to_outbox server_id (some r) w = (
  done tt,
  if leb outbox_size (length w.outbox)
      then w
      else if w.connected
      then record w { outbox = w.outbox ++ record { server_id = server_id; output = r } ∷ [] }
      else w,
)
