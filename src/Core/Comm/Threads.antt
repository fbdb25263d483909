-- ===== src/Core/Comm/Threads.antt =====
-- The threads of the bot as steps on what they share, and what holds however they interleave.
use irc_bot_rs.Base.{
  ◌≡◌, refl, sym, ap, subst, ◌∙◌, inl, inr, true, false, Bool-cases, Option, Option-cases, none,
  some, List, ◌∷◌, ◌++◌, leb, length, Result,
}
use irc_bot_rs.Text.{Text}
use irc_bot_rs.BTree.{lookup, insert, IsSorted}
use irc_bot_rs.BTree.Keys.{server_id_ord}
use irc_bot_rs.BTree.Laws.{IsSorted-insert, lookup-insert_self, lookup-insert_ne, key_cases}
use irc_bot_rs.Core.Env.{Env}
use irc_bot_rs.Core.Err.{ServerId, Error, done, done-injective}
use irc_bot_rs.Core.Irc.{Message}
use irc_bot_rs.Core.Reaction.{LibReaction}
use irc_bot_rs.Core.State.{State, Lock, Server, read_or_write_server, access}
use irc_bot_rs.Core.World.{OutboxRecord, Job, World, push_to_outbox, outbox_size}
use irc_bot_rs.Core.Comm.{update_prefix_info, spawn, receive}
use irc_bot_rs.Core.Jobs.{run_job}
use irc_bot_rs.Core.Registration.{set_server}
use irc_bot_rs.Core.Comm.Preserves.{Closed, Raises, receive-Keeps}
use irc_bot_rs.Core.Comm.Preserves.Jobs.{run_job-Keeps}

-- A message is received from a server, the thread of a message runs, the sending thread takes a
-- record, or it ends. The run of a thread of a message is one step. What it shares with the others is
-- the generator of random numbers and the outbox, which it writes, and the stored prefix, which it
-- reads, so that a prefix that is stored while it runs is taken as stored before or after it.
pub data Step (env : Env) : World → World → Type 0 where
  received :
      (w : World) (id : ServerId) (m : Result Error Message) → Step env w (receive env id m w).1
  ran :
      (w : World) (before : List Job) (job : Job) (after : List Job)
      → w.jobs ≡ before ++ job ∷ after
      → Step env w (run_job env job (record w { jobs = before ++ after })).1
  sent :
      (w : World) (r : OutboxRecord) (rest : List OutboxRecord)
      → w.outbox ≡ r ∷ rest
      → Step env w (record w { outbox = rest })
  ended : (w : World) → Step env w (record w { connected = false })

pub data Reach (env : Env) (start : World) : World → Type 0 where
  here : Reach env start start
  next : (v w : World) → Reach env start v → Step env v w → Reach env start w

-- What the steps keep if they keep it outside `receive` and `run_job`.
pub record Inert (env : Env) (P : World → Type 0) : Type 0 where
  pub closed : Closed env P
  pub take_job : (w : World) (jobs : List Job) → P w → P (record w { jobs = jobs })
  pub take_record :
      (w : World) (r : OutboxRecord) (rest : List OutboxRecord)
      → w.outbox ≡ r ∷ rest
      → P w
      → P (record w { outbox = rest })
  pub disconnect : (w : World) → P w → P (record w { connected = false })

Step-Keeps :
    (env : Env) (P : World → Type 0) (i : Inert env P) (v w : World) → Step env v w → P v → P w
Step-Keeps env P i v _ (received _ id m) p = receive-Keeps env P i.closed id m v p
Step-Keeps env P i v _ (ran _ before job after e) p =
    run_job-Keeps env P i.closed job (record v { jobs = before ++ after })
      (i.take_job v (before ++ after) p)
Step-Keeps env P i v _ (sent _ o rest e) p = i.take_record v o rest e p
Step-Keeps env P i v _ (ended _) p = i.disconnect v p

pub Reach-Keeps :
    (env : Env) (P : World → Type 0) (i : Inert env P) (start : World)
    → P start
    → (w : World) → Reach env start w
    → P w
Reach-Keeps env P i start p _ here = p
Reach-Keeps env P i start p w (next v _ r s) =
    Step-Keeps env P i v w s (Reach-Keeps env P i start p v r)

pub spawn-state : (env : Env) (job : Job) (w : World) → (spawn env job w).1.state ≡ w.state
unfolding spawn
spawn-state env job w = elim (Option-cases (env.spawn_error job.msg)) [
  | inl n ↦ rw n refl
  | inr (e, m) ↦ rw m refl
]

pub push-state :
    (w : World) (id : ServerId) (o : Option (LibReaction Message))
    → (push_to_outbox id o w).1.state ≡ w.state
unfolding push_to_outbox
push-state w id none = refl
push-state w id (some r) = elim (Bool-cases (leb outbox_size (length w.outbox))) [
  | inl full ↦ rw full refl
  | inr room ↦ elim (Bool-cases w.connected) [
    | inr n ↦ rw (room, n) refl
    | inl y ↦ rw (room, y) refl
  ]
]

-- The flag of a server that says that the message of the day is over.
abbrev pub MotdOver : ServerId → State → Type 0
MotdOver id s =
    (l : Lock Server) × (lookup id s.servers ≡ some l) × (l.content.motd_finished ≡ true)

pub access-done : (l : Lock Server) (d : Text) (a : Server) → access l d ≡ done a → l.content ≡ a
access-done l d a h = elim (Bool-cases l.poisoned) [
  | inl y ↦ cc (rw y at h)
  | inr n ↦ done-injective (rw n at h)
]

pub read_server-done :
    (describe : ServerId → Text) (s : State) (id : ServerId) (old : Server)
    → read_or_write_server describe s id ≡ done old
    → (l : Lock Server) × (lookup id s.servers ≡ some l) × (l.content ≡ old)
unfolding read_or_write_server
read_server-done describe s id old h = elim (Option-cases (lookup id s.servers)) [
  | inl n ↦ cc (rw n at h)
  | inr (l, m) ↦ (l, m, access-done l (describe id) old (rw m at h))
]

raised :
    (s : State) (id : ServerId) (old new : Server)
    → Raises s id old new
    → old.motd_finished ≡ true
    → new.motd_finished ≡ true
raised s id old new (inl e) h = ap (λ x. x.motd_finished) e
raised s id old new (inr (e, awaits)) h = ap (λ x. x.motd_finished) e ∙ h

raise-MotdOver :
    (env : Env) (w : World) (id id' : ServerId) (old new : Server)
    → read_or_write_server env.describe_server w.state id' ≡ done old
    → Raises w.state id' old new
    → IsSorted w.state.servers
    → MotdOver id w.state
    → MotdOver id (set_server id' new w).1.state
raise-MotdOver env w id id' old new e r sorted (l, m, f) = elim (key_cases id id') [
  | inr n ↦ (
    l,
    lookup-insert_ne id id' (record { content = new; poisoned = false }) w.state.servers n ∙ m,
    f,
  )
  | inl same ↦
      let (l', m', c) = read_server-done env.describe_server w.state id' old e in
      let found : l ≡ l' = cc (same, m, m') in
      let old_finished : old.motd_finished ≡ true =
        ap (λ s. s.motd_finished) (sym (ap (λ x. x.content) found ∙ c)) ∙ f in
      (
        record { content = new; poisoned = false },
        ap (λ k. lookup k (insert id' (record { content = new; poisoned = false }) w.state.servers))
              same
            ∙ lookup-insert_self id' (record { content = new; poisoned = false }) w.state.servers
                sorted,
        raised w.state id' old new r old_finished,
      )
]

-- Once a server has finished its message of the day, it stays so, however the threads interleave.
pub motd_finished_stays :
    (env : Env) (id : ServerId) (start : World)
    → IsSorted start.state.servers
    → MotdOver id start.state
    → (w : World) → Reach env start w
    → MotdOver id w.state
unfolding update_prefix_info
motd_finished_stays env id start sorted f w r =
    (Reach-Keeps env (λ w. IsSorted w.state.servers × MotdOver id w.state)
      (record {
        closed = record {
          push = λ w id' o h.
              subst (λ s. IsSorted s.servers × MotdOver id s) (sym (push-state w id' o)) h;
          raise = λ w id' old new e r h. (
            IsSorted-insert id' (record { content = new; poisoned = false }) w.state.servers h.0,
            raise-MotdOver env w id id' old new e r h.0 h.1,
          );
          prefix = λ w p h. h;
          start = λ w job h.
              subst (λ s. IsSorted s.servers × MotdOver id s) (sym (spawn-state env job w)) h;
          draw = λ w seed h. h;
        };
        take_job = λ w jobs h. h;
        take_record = λ w r rest e h. h;
        disconnect = λ w h. h;
      })
      start (sorted, f) w r).1
