-- ===== src/Core/Comm/Preserves.antt =====
-- A property of the shared world that pushing, starting threads, storing a prefix, drawing a random
-- number and setting the flags of a server keep is kept by the handling of every message.
pub mod Jobs
use irc_bot_rs.Base.{
  ℕ, ◌⊎◌, inl, inr, ◌≡◌, refl, Bool, Bool-cases, true, false, not, ◌&&◌, Option, none, some, List,
  [], ◌∷◌, if◌then◌else◌, on_option, unwrap_or, Result, ok, err,
}
use irc_bot_rs.Text.{Text, text_eq, trim}
use mathlib.Core.List.{reverse}
use irc_bot_rs.BTree.{Map}
use irc_bot_rs.Core.ModlSys.{TriggerPriority}
use irc_bot_rs.Core.BotCmd
use irc_bot_rs.Core.Config.{Channel, Server as ServerConfig}
use irc_bot_rs.Core.Env.{Env}
use irc_bot_rs.Core.Err.{ServerId, Error, Outcome, done, failed, panicked, out_of_fuel}
use irc_bot_rs.Core.Irc.{Mode, plus, unknown, Response, Command, Message, message, MsgMetadata}
use irc_bot_rs.Core.Prefix.{OwningMsgPrefix, MsgPrefix, parse, is_msg_to_nick}
use irc_bot_rs.Core.Reaction.{Reaction, LibReaction}
use irc_bot_rs.Core.Reply.{handle_reaction, bot_command_reaction}
use irc_bot_rs.Core.State.{
  State, Server, Trigger, nick, rng, read_or_write_server, get_server_config,
}
use irc_bot_rs.Core.Trigger.{find_trigger, run_trigger, run_any_matching, keep, first_matching}
use irc_bot_rs.Core.World.{Job, World, Ended, Act, pass, lift, and_then, ◌>>=◌, push_to_outbox}
use irc_bot_rs.Core.Comm.{
  opt_text_eq, update_msg_prefix_str, update_prefix_info, spawn, handle_privmsg,
  send_msg_prefix_update_request, handle_004, normalise, dispatch, handle_msg, on_error, receive,
}
use irc_bot_rs.Core.Jobs.{
  handle_err, split_cmd, cmd_line, job_metadata, trigger_reaction, choose_reaction,
  handle_bot_command_or_trigger, run_job,
}
use irc_bot_rs.Core.Registration.{
  set_server, opt_code_eq, push_joins, maybe_join_channels, handle_motd_end,
  registration_mode_obtained, obtain_mode, mode_change, handle_user_mode_change,
  handle_user_modes_change,
}

-- The server is configured with a mode to wait for.
abbrev pub AwaitsMode : State → ServerId → Type 0
AwaitsMode s id =
    (config : ServerConfig) × (ch : ℕ) × (get_server_config s id ≡ done config)
    × (config.await_registration_mode ≡ some ch)

-- The flags of a server are set, and never reset; the one for the mode is set only if there is a mode
-- to wait for.
abbrev pub Raises : State → ServerId → Server → Server → Type 0
Raises s id old new =
    (new ≡ record old { motd_finished = true })
    ⊎ ((new ≡ record old { registration_mode_obtained = true }) × AwaitsMode s id)

some_code : (o : Option ℕ) (c : ℕ) → opt_code_eq o c ≡ true → (d : ℕ) × (o ≡ some d)
some_code (some d) c h = (d, refl)
some_code none c h = cc

abbrev pub with_rng : State → ℕ → State
with_rng s seed = record s { rng = record s.rng { content = seed } }

pub record Closed (env : Env) (P : World → Type 0) : Type 0 where
  pub push :
      (w : World) (id : ServerId) (o : Option (LibReaction Message))
      → P w
      → P (push_to_outbox id o w).1
  pub raise :
      (w : World) (id : ServerId) (old new : Server)
      → read_or_write_server env.describe_server w.state id ≡ done old
      → Raises w.state id old new
      → P w
      → P (set_server id new w).1
  pub prefix : (w : World) (p : MsgPrefix) → P w → P (update_prefix_info env p w).1
  pub start : (w : World) (job : Job) → P w → P (spawn env job w).1
  pub draw : (w : World) (seed : ℕ) → P w → P (record w { state = with_rng w.state seed })

module _ (env : Env) (P : World → Type 0) (c : Closed env P) where
  abbrev pub Keeps : {A : Type 0} → Act A → Type 0
  Keeps m = (w : World) → P w → P (m w).1

  pub keeps_and_then :
      {A B : Type 0} (p : Ended A) (f : A → Act B)
      → P p.1
      → ((a : A) → Keeps (f a))
      → P (and_then p f).1
  keeps_and_then (done a, w) f h k = k a w h
  keeps_and_then (failed e, w) f h k = h
  keeps_and_then (panicked, w) f h k = h
  keeps_and_then (out_of_fuel, w) f h k = h

  pub Keeps-bind :
      {A B : Type 0} (m : Act A) (f : A → Act B)
      → Keeps m
      → ((a : A) → Keeps (f a))
      → Keeps (m >>= f)
  Keeps-bind m f h k w p = keeps_and_then (m w) f (h w p) k

  keeps_read :
      {A B : Type 0} (w : World) (o : Outcome A) (f : A → Act B)
      → P w
      → ((a : A) → o ≡ done a → P (f a w).1)
      → P (and_then (o, w) f).1
  keeps_read w (done a) f p k = k a refl
  keeps_read w (failed e) f p k = p
  keeps_read w panicked f p k = p
  keeps_read w out_of_fuel f p k = p

  Keeps-lift :
      {A B : Type 0} (g : State → Outcome A) (f : A → Act B)
      → ((a : A) (w : World) → g w.state ≡ done a → P w → P (f a w).1)
      → Keeps (lift g >>= f)
  Keeps-lift g f k w p = keeps_read w (g w.state) f p λ a e. k a w e p

  Keeps-if : {A : Type 0} (b : Bool) (m n : Act A) → Keeps m → Keeps n → Keeps (if b then m else n)
  Keeps-if true m n h k = h
  Keeps-if false m n h k = k

  push_joins-Keeps : (id : ServerId) (chans : List Channel) → Keeps (push_joins env id chans)
  unfolding push_joins
  push_joins-Keeps id [] = λ w h. h
  push_joins-Keeps id (chan ∷ chans) =
      Keeps-bind
        (push_to_outbox id
          (some (LibReaction.raw_msg (message (Command.join chan.name none none)))))
        (λ _. push_joins env id chans) (λ w. c.push w id _) (λ _. push_joins-Keeps id chans)

  maybe_join_channels-Keeps : (server : Server) → Keeps (maybe_join_channels env server)
  unfolding maybe_join_channels
  maybe_join_channels-Keeps server =
      Keeps-if (server.motd_finished && server.registration_mode_obtained) _ _
        (Keeps-lift (λ s. get_server_config s server.id) _
          (λ config w e.
            Keeps-bind (push_joins env server.id config.channels) _
              (push_joins-Keeps server.id config.channels) (λ _ v p. p) w))
        (λ w p. p)

  handle_motd_end-Keeps : (id : ServerId) → Keeps (handle_motd_end env id)
  unfolding handle_motd_end
  handle_motd_end-Keeps id =
      Keeps-lift (λ s. read_or_write_server env.describe_server s id) _
        (λ server w e p.
          (let new = record server { motd_finished = true } in
            Keeps-bind (maybe_join_channels env new) _ (maybe_join_channels-Keeps new) (λ _ v q. q)
              (set_server id new w).1 (c.raise w id server new e (inl refl) p)))

  registration_mode_obtained-Keeps :
      (id : ServerId) (w : World)
      → AwaitsMode w.state id
      → P w
      → P (registration_mode_obtained env id w).1
  unfolding registration_mode_obtained
  registration_mode_obtained-Keeps id w awaits p =
      keeps_read w (read_or_write_server env.describe_server w.state id) _ p (λ server e.
        (let new = record server { registration_mode_obtained = true } in
          Keeps-bind (maybe_join_channels env new) _ (maybe_join_channels-Keeps new) (λ _ v q. q)
            (set_server id new w).1 (c.raise w id server new e (inr (refl, awaits)) p)))

  obtain_mode-Keeps : (id : ServerId) (ch : ℕ) → Keeps (obtain_mode env id ch)
  unfolding obtain_mode
  obtain_mode-Keeps id ch =
      Keeps-lift (λ s. get_server_config s id) _
        (λ config w e p. elim (Bool-cases (opt_code_eq config.await_registration_mode ch)) [
          | inr n ↦ rw n p
          | inl y ↦
              let (d, m) = some_code config.await_registration_mode ch y in
              rw y (registration_mode_obtained-Keeps id w (config, d, e, m) p)
        ])

  mode_change-Keeps : (id : ServerId) (b : Bool) (mode : Mode) → Keeps (mode_change env id b mode)
  unfolding mode_change
  mode_change-Keeps id true (plus (unknown ch) arg) = obtain_mode-Keeps id ch
  mode_change-Keeps id b mode = λ w h. h

  handle_user_mode_change-Keeps :
      (id : ServerId) (to : Text) (mode : Mode) → Keeps (handle_user_mode_change env id to mode)
  unfolding handle_user_mode_change
  handle_user_mode_change-Keeps id to mode =
      Keeps-lift (λ s. nick s id) _
        λ bot_nick w e. mode_change-Keeps id (text_eq to bot_nick) mode w

  handle_user_modes_change-Keeps :
      (id : ServerId) (to : Text) (modes : List Mode)
      → Keeps (handle_user_modes_change env id to modes)
  unfolding handle_user_modes_change
  handle_user_modes_change-Keeps id to [] = λ w h. h
  handle_user_modes_change-Keeps id to (mode ∷ modes) =
      Keeps-bind (handle_user_mode_change env id to mode) _
        (handle_user_mode_change-Keeps id to mode) λ _. handle_user_modes_change-Keeps id to modes

  handle_privmsg-Keeps :
      (id : ServerId) (p : OwningMsgPrefix) (target msg : Text)
      → Keeps (handle_privmsg env id p target msg)
  unfolding handle_privmsg
  handle_privmsg-Keeps id p target msg =
      Keeps-lift (λ s. nick s id) _
        λ bot_nick w e.
          Keeps-if (not (is_msg_to_nick target msg bot_nick)) _ _ (λ v q. q)
            (Keeps-if
              (opt_text_eq (parse p).nick target && text_eq (trim msg) update_msg_prefix_str) _ _
              (λ v. c.prefix v (parse p)) (λ v. c.start v _))
            w

  handle_004-Keeps : (id : ServerId) → Keeps (handle_004 env id)
  unfolding handle_004 send_msg_prefix_update_request
  handle_004-Keeps id = Keeps-lift (λ s. nick s id) _ λ bot_nick w e p. p

  dispatch-Keeps : (id : ServerId) (p : Option Text) (m : Command) → Keeps (dispatch env id p m)
  unfolding dispatch
  dispatch-Keeps id p (Command.privmsg target msg) =
      handle_privmsg-Keeps id (record { backing = unwrap_or p [] }) target msg
  dispatch-Keeps id p (Command.user_mode to modes) = handle_user_modes_change-Keeps id to modes
  dispatch-Keeps id p (Command.response Response.rpl_endofmotd args suffix) =
      handle_motd_end-Keeps id
  dispatch-Keeps id p (Command.response Response.err_nomotd args suffix) = handle_motd_end-Keeps id
  dispatch-Keeps id p (Command.response Response.rpl_myinfo args suffix) =
      Keeps-bind (handle_004 env id) _ (handle_004-Keeps id) λ r w. c.push w id (some r)
  dispatch-Keeps id p m = λ w h. h

  handle_msg-Keeps : (id : ServerId) (m : Message) → Keeps (handle_msg env id m)
  unfolding handle_msg
  handle_msg-Keeps id m =
      Keeps-lift (λ s. normalise env m.command) _ λ cmd w e. dispatch-Keeps id m.prefix cmd w

  on_error-Keeps : (id : ServerId) (p : Ended Unit) → P p.1 → P (on_error env id p).1
  unfolding on_error
  on_error-Keeps id (failed e, w) h = c.push w id (handle_err env e) h
  on_error-Keeps id (done a, w) h = h
  on_error-Keeps id (panicked, w) h = h
  on_error-Keeps id (out_of_fuel, w) h = h

  -- Receiving a message, or an error in its place, keeps the property.
  pub receive-Keeps : (id : ServerId) (m : Result Error Message) → Keeps (receive env id m)
  unfolding receive
  receive-Keeps id (ok m) w h =
      on_error-Keeps id (handle_msg env id m w) (handle_msg-Keeps id m w h)
  receive-Keeps id (err e) w h = on_error-Keeps id (failed e, w) h
