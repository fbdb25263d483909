-- ===== src/Core/Comm/Preserves/Jobs.antt =====
-- The thread that handles one message keeps what its actions keep (src/core/irc_comm.rs).
use irc_bot_rs.Base.{Option, none, some, List, [], ◌∷◌, on_option}
use irc_bot_rs.Text.{Text}
use mathlib.Core.List.{reverse}
use irc_bot_rs.BTree.{Map}
use irc_bot_rs.Core.ModlSys.{TriggerPriority}
use irc_bot_rs.Core.BotCmd
use irc_bot_rs.Core.Env.{Env}
use irc_bot_rs.Core.Err.{Outcome, done, failed, panicked, out_of_fuel}
use irc_bot_rs.Core.Irc.{MsgMetadata}
use irc_bot_rs.Core.Reaction.{Reaction}
use irc_bot_rs.Core.Reply.{handle_reaction, bot_command_reaction}
use irc_bot_rs.Core.State.{State, Trigger, rng}
use irc_bot_rs.Core.Trigger.{find_trigger, run_trigger, run_any_matching, keep, first_matching}
use irc_bot_rs.Core.World.{Job, World, Ended, pass, lift, and_then}
use irc_bot_rs.Core.Jobs.{
  split_cmd, cmd_line, job_metadata, trigger_reaction, choose_reaction,
  handle_bot_command_or_trigger, run_job,
}
use irc_bot_rs.Core.Comm.Preserves.{Closed, Keeps, keeps_and_then, Keeps-bind, with_rng}

module _ (env : Env) (P : World → Type 0) (c : Closed env P) where
  -- The thread of a message
  keeps_keep :
      {A B : Type 0} (w : World) (m : Outcome A) (s : State) (f : A → Outcome B × State)
      → P (record w { state = s })
      → ((a : A) → P (record w { state = (f a).1 }))
      → P (record w { state = (keep m s f).1 })
  keeps_keep w (done a) s f h k = k a
  keeps_keep w (failed e) s f h k = h
  keeps_keep w panicked s f h k = h
  keeps_keep w out_of_fuel s f h k = h

  keeps_option :
      {A B : Type 0} (w : World) (o : Option A) (n : Outcome B × State) (f : A → Outcome B × State)
      → P (record w { state = n.1 })
      → ((a : A) → P (record w { state = (f a).1 }))
      → P (record w { state = (on_option o n f).1 })
  keeps_option w none n f h k = h
  keeps_option w (some a) n f h k = k a

  find_trigger-Keeps :
      (w : World) (text : Text) (groups : Map TriggerPriority (List Trigger)) (s : State)
      → P (record w { state = s })
      → P (record w { state = (find_trigger env text groups s).1 })
  unfolding find_trigger
  find_trigger-Keeps w text [] s h = h
  find_trigger-Keeps w text ((p, []) ∷ groups) s h = find_trigger-Keeps w text groups s h
  find_trigger-Keeps w text ((p, t ∷ ts) ∷ groups) s h = keeps_keep w (rng s) s _ h λ seed.
      let order = (env.rand_iter seed (t ∷ ts)).0 in
      let s' = with_rng s (env.rand_iter seed (t ∷ ts)).1 in
      let h' = c.draw (record w { state = s }) (env.rand_iter seed (t ∷ ts)).1 h in
      keeps_option w (first_matching env.regex text order) (find_trigger env text groups s')
        (λ t'. (done (some t'), s')) (find_trigger-Keeps w text groups s' h') (λ t'. h')

  run_any_matching-Keeps :
      (w : World) (text : Text) (metadata : MsgMetadata)
      → P w
      → P (record w { state = (run_any_matching env w.state text metadata).1 })
  unfolding run_any_matching
  run_any_matching-Keeps w text metadata h =
      let found = find_trigger env text (reverse w.state.triggers) w.state in
      let h' = find_trigger-Keeps w text (reverse w.state.triggers) w.state h in
      keeps_keep w found.0 found.1 _ h' λ trigger.
        keeps_option w trigger (done none, found.1) _ h'
          λ t.
            keeps_keep w (run_trigger env found.1 text metadata t) found.1
              (λ r. (done (some r), found.1)) h' λ r. h'

  choose-Keeps :
      {A : Type 0} (w : World) (o : Option A) (n : Ended Reaction) (f : A → Ended Reaction)
      → P n.1
      → ((a : A) → P (f a).1)
      → P (on_option o n f).1
  choose-Keeps w none n f h k = h
  choose-Keeps w (some a) n f h k = k a

  choose_reaction-Keeps : (job : Job) → Keeps env P c (choose_reaction env job)
  unfolding choose_reaction
  choose_reaction-Keeps job w h =
      let cmd = split_cmd env (cmd_line env job) in
      let triggered = run_any_matching env w.state (cmd_line env job) (job_metadata env job) in
      choose-Keeps w (BotCmd.run env w.state cmd.0 cmd.1 (job_metadata env job))
        (and_then (triggered.0, record w { state = triggered.1 })
          λ r. pass (trigger_reaction env r))
        (λ r. (done (bot_command_reaction env cmd.0 r), w))
        (keeps_and_then env P c (triggered.0, record w { state = triggered.1 })
          (λ r. pass (trigger_reaction env r))
          (run_any_matching-Keeps w (cmd_line env job) (job_metadata env job) h) (λ r v q. q))
        (λ r. h)

  handle_bot_command_or_trigger-Keeps :
      (job : Job) → Keeps env P c (handle_bot_command_or_trigger env job)
  unfolding handle_bot_command_or_trigger
  handle_bot_command_or_trigger-Keeps job w h =
      Keeps-bind env P c (choose_reaction env job)
        (λ reaction.
          lift λ s. handle_reaction env s job.server_id job.prefix job.target reaction job.bot_nick)
        (choose_reaction-Keeps job) (λ r v q. q) w h

  -- The thread that handles a message keeps the property.
  pub run_job-Keeps : (job : Job) → Keeps env P c (run_job env job)
  unfolding run_job
  run_job-Keeps job =
      Keeps-bind env P c (handle_bot_command_or_trigger env job) _
        (handle_bot_command_or_trigger-Keeps job) λ r w. c.push w job.server_id r
