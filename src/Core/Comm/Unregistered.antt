-- ===== src/Core/Comm/Unregistered.antt =====
-- A server that is configured without a mode to wait for never gets its flag for the mode
-- (src/core/irc_comm.rs).
use irc_bot_rs.Base.{
  ◌≡◌, refl, sym, ap, ◌∙◌, subst, inl, inr, true, false, Bool, none, some, List, [], ◌∷◌,
}
use irc_bot_rs.Text.{Text, text_eq}
use irc_bot_rs.BTree.{lookup, IsSorted}
use irc_bot_rs.BTree.Keys.{server_id_ord}
use irc_bot_rs.BTree.Laws.{IsSorted-insert, lookup-insert_self, lookup-insert_ne, key_cases}
use irc_bot_rs.Core.Config.{Server as ServerConfig}
use irc_bot_rs.Core.Env.{Env}
use irc_bot_rs.Core.Err.{ServerId, Outcome, done, failed, panicked, out_of_fuel, done-injective}
use irc_bot_rs.Core.Irc.{Mode, plus, unknown}
use irc_bot_rs.Core.State.{State, Lock, Server, read_or_write_server, get_server_config, nick}
use irc_bot_rs.Core.World.{World, Act, Ended, and_then}
use irc_bot_rs.Core.Comm.{update_prefix_info}
use irc_bot_rs.Core.Registration.{
  set_server, handle_motd_end, obtain_mode, mode_change, handle_user_mode_change,
  handle_user_modes_change,
}
use irc_bot_rs.Core.Comm.Joining.{not_ready, motd_step}
use irc_bot_rs.Core.Comm.Preserves.{Raises, AwaitsMode}
use irc_bot_rs.Core.Comm.Threads.{Reach, Reach-Keeps, push-state, spawn-state, read_server-done}

-- The server is known, and has not had its registration mode.
abbrev pub IsUnregistered : ServerId → State → Type 0
IsUnregistered id s =
    (l : Lock Server) × (lookup id s.servers ≡ some l)
    × (l.content.registration_mode_obtained ≡ false)

module _ (env : Env) (id : ServerId) (config : ServerConfig) (start : World)
    (known : get_server_config start.state id ≡ done config)
    (no_mode : config.await_registration_mode ≡ none) where
  abbrev Holds : State → Type 0
  Holds s = IsSorted s.servers × (s.config ≡ start.state.config) × IsUnregistered id s

  config_of : (s : State) → s.config ≡ start.state.config → get_server_config s id ≡ done config
  unfolding get_server_config
  config_of s e = rw e known

  awaits_nothing : (s : State) → s.config ≡ start.state.config → AwaitsMode s id → ⊥
  awaits_nothing s e (config', ch, k, m) =
      let same : config' ≡ config = done-injective (sym k ∙ config_of s e) in cc (same, m, no_mode)

  still_unset :
      (s : State) (old new : Server)
      → s.config ≡ start.state.config
      → Raises s id old new
      → old.registration_mode_obtained ≡ false
      → new.registration_mode_obtained ≡ false
  still_unset s old new e (inl r) h = ap (λ x. x.registration_mode_obtained) r ∙ h
  still_unset s old new e (inr (r, awaits)) h = absurd (awaits_nothing s e awaits)

  raise-Holds :
      (w : World) (id' : ServerId) (old new : Server)
      → read_or_write_server env.describe_server w.state id' ≡ done old
      → Raises w.state id' old new
      → Holds w.state
      → Holds (set_server id' new w).1.state
  raise-Holds w id' old new e r (sorted, same, (l, m, f)) = (
    IsSorted-insert id' (record { content = new; poisoned = false }) w.state.servers sorted,
    same,
    elim (key_cases id id') [
      | inr n ↦ (
        l,
        lookup-insert_ne id id' (record { content = new; poisoned = false }) w.state.servers n ∙ m,
        f,
      )
      | inl eq ↦
          let (l', m', c) = read_server-done env.describe_server w.state id' old e in
          let found : l ≡ l' = cc (eq, m, m') in
          let unset : old.registration_mode_obtained ≡ false =
            ap (λ s. s.registration_mode_obtained) (sym (ap (λ x. x.content) found ∙ c)) ∙ f in
          let r' : Raises w.state id old new = subst (λ i. Raises w.state i old new) (sym eq) r in
          (
            record { content = new; poisoned = false },
            subst
                (λ k.
                  lookup k (set_server id' new w).1.state.servers
                  ≡ some (record { content = new; poisoned = false }))
                (sym eq)
                (lookup-insert_self id' (record { content = new; poisoned = false }) w.state.servers
                  sorted),
            still_unset w.state old new same r' unset,
          )
    ],
  )

  -- The flag stays unset, however the threads interleave.
  reached-Holds : (w : World) → Holds start.state → Reach env start w → Holds w.state
  unfolding update_prefix_info
  reached-Holds w h r =
      Reach-Keeps env (λ v. Holds v.state)
        (record {
          closed = record {
            push = λ v id' o p. subst Holds (sym (push-state v id' o)) p;
            raise = raise-Holds;
            prefix = λ v p q. q;
            start = λ v job p. subst Holds (sym (spawn-state env job v)) p;
            draw = λ v seed p. p;
          };
          take_job = λ v jobs p. p;
          take_record = λ v o rest e p. p;
          disconnect = λ v p. p;
        })
        start h w r

  server_unset :
      (s : State) (server : Server)
      → Holds s
      → read_or_write_server env.describe_server s id ≡ done server
      → server.registration_mode_obtained ≡ false
  server_unset s server (sorted, same, (l, m, f)) e =
      let (l', m', c) = read_server-done env.describe_server s id server e in
      let found : l ≡ l' = cc (m, m') in
      ap (λ x. x.registration_mode_obtained) (sym (ap (λ x. x.content) found ∙ c)) ∙ f

  motd_quiet :
      (w : World) (o : Outcome Server)
      → Holds w.state
      → read_or_write_server env.describe_server w.state id ≡ o
      → (handle_motd_end env id w).1.outbox ≡ w.outbox
  unfolding handle_motd_end
  motd_quiet w (done server) h e =
      let new : Server = record server { motd_finished = true } in
      ap (λ x. x.1.outbox)
        (motd_step env id server w (done false, (set_server id new w).1) e
          (not_ready env new (set_server id new w).1 (server_unset w.state server h e)))
  motd_quiet w (failed x) h e = rw e refl
  motd_quiet w panicked h e = rw e refl
  motd_quiet w out_of_fuel h e = rw e refl

  mode_change_quiet :
      (w : World) (b : Bool) (mode : Mode)
      → w.state.config ≡ start.state.config
      → (mode_change env id b mode w).1 ≡ w
  unfolding mode_change obtain_mode
  mode_change_quiet w true (plus (unknown ch) arg) same = rw (config_of w.state same, no_mode) refl
  mode_change_quiet w b mode same = refl

  one_mode_quiet :
      (w : World) (to : Text) (mode : Mode) (o : Outcome Text)
      → w.state.config ≡ start.state.config
      → nick w.state id ≡ o
      → (handle_user_mode_change env id to mode w).1 ≡ w
  unfolding handle_user_mode_change
  one_mode_quiet w to mode (done bot_nick) same e =
      rw e (mode_change_quiet w (text_eq to bot_nick) mode same)
  one_mode_quiet w to mode (failed x) same e = rw e refl
  one_mode_quiet w to mode panicked same e = rw e refl
  one_mode_quiet w to mode out_of_fuel same e = rw e refl

  and_then_quiet :
      {A B : Type 0} (p : Ended A) (f : A → Act B) (w : World)
      → p.1 ≡ w
      → ((a : A) → (f a w).1 ≡ w)
      → (and_then p f).1 ≡ w
  and_then_quiet (done a, v) f w e k = subst (λ x. (f a x).1 ≡ w) (sym e) (k a)
  and_then_quiet (failed x, v) f w e k = e
  and_then_quiet (panicked, v) f w e k = e
  and_then_quiet (out_of_fuel, v) f w e k = e

  modes_quiet :
      (w : World) (to : Text) (modes : List Mode)
      → w.state.config ≡ start.state.config
      → (handle_user_modes_change env id to modes w).1 ≡ w
  unfolding handle_user_modes_change
  modes_quiet w to [] same = refl
  modes_quiet w to (mode ∷ modes) same =
      and_then_quiet (handle_user_mode_change env id to mode w)
        (λ _. handle_user_modes_change env id to modes) w
        (one_mode_quiet w to mode (nick w.state id) same refl) (λ _. modes_quiet w to modes same)

  -- A server that is configured without a mode to wait for: however the threads interleave, neither
  -- the end of its message of the day nor any change of modes ever has the bot ask to join a channel.
  pub never_joins :
      IsSorted start.state.servers
      → IsUnregistered id start.state
      → (w : World) → Reach env start w
      → ((handle_motd_end env id w).1.outbox ≡ w.outbox)
        × ((to : Text) (modes : List Mode)
            → (handle_user_modes_change env id to modes w).1.outbox ≡ w.outbox)
  never_joins sorted unset w r =
      let h = reached-Holds w (sorted, refl, unset) r in
      (
        motd_quiet w (read_or_write_server env.describe_server w.state id) h refl,
        λ to modes. ap (λ v. v.outbox) (modes_quiet w to modes h.1),
      )
