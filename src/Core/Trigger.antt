-- ===== src/Core/Trigger.antt =====
-- Running a trigger that matches (`run_any_matching` of src/core/trigger.rs).
pub mod Choice
use irc_bot_rs.Base.{
  ℕ, Bool, true, false, not, ◌&&◌, Option, none, some, List, [], ◌∷◌, ◌++◌, if◌then◌else◌,
  on_option, Result, ok, err,
}
use mathlib.Core.List.{reverse}
use irc_bot_rs.Text.{Text, codes}
use irc_bot_rs.BTree.{Map}
use irc_bot_rs.Core.Err.{Outcome, done, failed, panicked, out_of_fuel, lock_poisoned, handler_panic}
use irc_bot_rs.Core.Env.{Env}
use irc_bot_rs.Core.Irc.{MsgMetadata}
use irc_bot_rs.Core.ModlSys.{TriggerPriority}
use irc_bot_rs.Core.Reaction.{BotCmdResult}
use irc_bot_rs.Core.State.{State, Lock, Trigger, rng}
use irc_bot_rs.Util.Regex.{RegexCrate}

-- The filter of `run_any_matching`: a regex whose lock is poisoned matches nothing.
abbrev pub matches : RegexCrate → Text → Trigger → Bool
matches crate text t = not t.regex.poisoned && crate.is_match t.regex.content text

-- `filter(..).next()`
unfoldable pub first_matching : RegexCrate → Text → List Trigger → Option Trigger
first_matching crate text [] = none
first_matching crate text (t ∷ ts) =
    let rest = first_matching crate text ts in if matches crate text t then some t else rest

-- `?` where the state is kept whatever happens
abbrev pub keep {ℓ κ σ} :
    {A : Type ℓ} {B : Type κ} {S : Type σ} → Outcome A → S → (A → Outcome B × S) → Outcome B × S
keep (done a) s f = f a
keep (failed e) s f = (failed e, s)
keep panicked s f = (panicked, s)
keep out_of_fuel s f = (out_of_fuel, s)

-- The loop over the priorities, the highest first. `rand_iter` draws from the generator of the state.
unfoldable pub find_trigger :
    Env → Text → Map TriggerPriority (List Trigger) → State → Outcome (Option Trigger) × State
unfolding first_matching
find_trigger env text [] s = (done none, s)
find_trigger env text ((priority, []) ∷ groups) s = find_trigger env text groups s
find_trigger env text ((priority, t ∷ ts) ∷ groups) s = keep (rng s) s λ seed.
    let (order, seed') = env.rand_iter seed (t ∷ ts) in
    let s' = record s { rng = record s.rng { content = seed' } } in
    let rest = find_trigger env text groups s' in
    on_option (first_matching env.regex text order) rest λ t'. (done (some t'), s')

-- `run_handler`, with `?`
trigger_result : Trigger → Result Text BotCmdResult → Outcome BotCmdResult
trigger_result t (ok r) = done r
trigger_result t (err payload) = failed (handler_panic (codes "trigger") t.name payload)

-- What follows the loop; `expect` fails where a regex that matched has no captures.
unfoldable pub run_trigger : Env → State → Text → MsgMetadata → Trigger → Outcome BotCmdResult
unfolding trigger_result
run_trigger env s text metadata t =
    if t.regex.poisoned
    then failed (
        lock_poisoned (
          codes "the regex for trigger "
          ++ env.display_uuid t.uuid
          ++ codes " ("
          ++ env.debug t.name
          ++ codes ")"))
    else if env.regex.is_match t.regex.content text
    then trigger_result t (env.run_trigger s t metadata.dest metadata.prefix text)
    else panicked

unfoldable pub run_any_matching :
    Env → State → Text → MsgMetadata → Outcome (Option BotCmdResult) × State
unfolding find_trigger run_trigger
run_any_matching env s text metadata =
    let (found, s') = find_trigger env text (reverse s.triggers) s in
    keep found s' λ trigger.
      on_option trigger (done none, s')
        λ t. keep (run_trigger env s' text metadata t) s' λ r. (done (some r), s')
