-- ===== src/Core/Trigger/Choice.antt =====
-- Which trigger is run.
use irc_bot_rs.Base.{
  ℕ, ◌≡◌, refl, sym, ap, subst, inl, inr, ◌↔◌, Bool, true, false, Bool-cases, Option, Option-cases,
  none, some, List, [], ◌∷◌, ◌++◌, Occurs, nothing_occurs, if◌then◌else◌, on_option, All, Result,
  ok, err,
}
use mathlib.Core.List.{reverse}
use irc_bot_rs.Text.{Text}
use irc_bot_rs.BTree.{Map}
use irc_bot_rs.Util.Regex.{RegexCrate}
use irc_bot_rs.Core.Err.{Error, Outcome, done, failed, panicked, out_of_fuel, done-injective}
use irc_bot_rs.Core.Env.{Env}
use irc_bot_rs.Core.ModlSys.{TriggerPriority}
use irc_bot_rs.Core.State.{State, Trigger, rng}
use irc_bot_rs.Core.Trigger.{
  matches, first_matching, keep, find_trigger, run_trigger, trigger_result, run_any_matching,
}
use irc_bot_rs.Core.Reaction.{BotCmdResult}
use irc_bot_rs.Core.Irc.{MsgMetadata}

-- The order that is drawn has the elements of the list.
abbrev pub IsFair : Env → Type 0
IsFair env =
    (seed : ℕ) (ts : List Trigger) (t : Trigger) → Occurs t ts ↔ Occurs t (env.rand_iter seed ts).0

abbrev NoneMatch : Env → Text → TriggerPriority × List Trigger → Type 0
NoneMatch env text group = (t : Trigger) → Occurs t group.1 → matches env.regex text t ≡ false

first_matching-some :
    (crate : RegexCrate) (text : Text) (ts : List Trigger) (t : Trigger)
    → first_matching crate text ts ≡ some t
    → Occurs t ts × (matches crate text t ≡ true)
unfolding first_matching
first_matching-some crate text [] t h = cc
first_matching-some crate text (u ∷ ts) t h = elim (Bool-cases (matches crate text u)) [
  | inl y ↦ let e : u ≡ t = cc (rw y at h) in (([], ts, ap (λ x. x ∷ ts) e), cc (e, y))
  | inr n ↦
      let ((before, after, e), m) = first_matching-some crate text ts t (rw n at h) in
      ((u ∷ before, after, ap (λ x. u ∷ x) e), m)
]

first_matching-none :
    (crate : RegexCrate) (text : Text) (ts : List Trigger) (t : Trigger)
    (before after : List Trigger)
    → first_matching crate text ts ≡ none
    → ts ≡ before ++ t ∷ after
    → matches crate text t ≡ false
unfolding first_matching
first_matching-none crate text [] t before after h e = absurd (nothing_occurs t before after e)
first_matching-none crate text (u ∷ ts) t [] after h e = elim (Bool-cases (matches crate text u)) [
  | inl y ↦ cc (rw y at h)
  | inr n ↦ cc
]
first_matching-none crate text (u ∷ ts) t (v ∷ before) after h e =
    elim (Bool-cases (matches crate text u)) [
      | inl y ↦ cc (rw y at h)
      | inr n ↦ first_matching-none crate text ts t before after (rw n at h) (cc)
    ]

keep-eq-some :
    {A : Type 0} {B : Type 0} (m : Outcome A) (s : State) (f : A → Outcome B × State) (b : B)
    → (keep m s f).0 ≡ done b
    → (a : A) × (m ≡ done a) × ((f a).0 ≡ done b)
keep-eq-some (done a) s f b h = (a, refl, h)
keep-eq-some (failed e) s f b h = cc
keep-eq-some panicked s f b h = cc
keep-eq-some out_of_fuel s f b h = cc

-- The first group with a trigger that matches is where the trigger comes from.
abbrev pub IsFound : Env → Text → Map TriggerPriority (List Trigger) → Option Trigger → Type 0
IsFound env text groups none = All (NoneMatch env text) groups
IsFound env text groups (some t) =
    (before after : Map TriggerPriority (List Trigger)) × (priority : TriggerPriority) × (ts : List
      Trigger)
    × (groups ≡ before ++ (priority, ts) ∷ after)
    × Occurs t ts
    × (matches env.regex text t ≡ true)
    × All (NoneMatch env text) before

IsFound-cons :
    (env : Env) (text : Text) (group : TriggerPriority × List Trigger)
    (groups : Map TriggerPriority (List Trigger)) (o : Option Trigger)
    → NoneMatch env text group
    → IsFound env text groups o
    → IsFound env text (group ∷ groups) o
IsFound-cons env text group groups none n f = (n, f)
IsFound-cons env text group groups (some t) n
      (before, after, priority, ts, e, occurs, m, none_before) =
    (group ∷ before, after, priority, ts, ap (λ x. group ∷ x) e, occurs, m, (n, none_before))

find_trigger-IsFound :
    (env : Env) (text : Text) (groups : Map TriggerPriority (List Trigger)) (s : State)
    (o : Option Trigger)
    → IsFair env
    → (find_trigger env text groups s).0 ≡ done o
    → IsFound env text groups o
unfolding find_trigger
find_trigger-IsFound env text [] s none fair h = tt
find_trigger-IsFound env text [] s (some t) fair h = cc
find_trigger-IsFound env text ((p, []) ∷ groups) s o fair h =
    IsFound-cons env text (p, []) groups o
      (λ t (before, after, e). absurd (nothing_occurs t before after e))
      (find_trigger-IsFound env text groups s o fair h)
find_trigger-IsFound env text ((p, t ∷ ts) ∷ groups) s o fair h =
    let searched =
      keep-eq-some (rng s) s
        (λ seed.
          (let (order, seed') = env.rand_iter seed (t ∷ ts) in
            let s' = record s { rng = record s.rng { content = seed' } } in
            on_option (first_matching env.regex text order) (find_trigger env text groups s')
              λ t'. (done (some t'), s')))
        o h in
    let seed = searched.0 in
    let order = (env.rand_iter seed (t ∷ ts)).0 in
    let s' = record s { rng = record s.rng { content = (env.rand_iter seed (t ∷ ts)).1 } } in
    elim (Option-cases (first_matching env.regex text order)) [
      | inl n ↦
          IsFound-cons env text (p, t ∷ ts) groups o
            (λ u occurs.
              (let (before, after, e) = (fair seed (t ∷ ts) u).0 occurs in
                first_matching-none env.regex text order u before after n e))
            (find_trigger-IsFound env text groups s' o fair (rw n at searched.2))
      | inr (u, m) ↦
          let (occurs, y) = first_matching-some env.regex text order u m in
          let e : some u ≡ o = cc (rw m at searched.2) in
          subst (IsFound env text ((p, t ∷ ts) ∷ groups)) e
            ([], groups, p, t ∷ ts, refl, (fair seed (t ∷ ts) u).1 occurs, y, tt)
    ]

-- The answer is what the handler of the trigger came to.
abbrev pub IsAnswer : Env → Text → MsgMetadata → Option Trigger → Option BotCmdResult → Type 0
IsAnswer env text metadata none o = o ≡ none
IsAnswer env text metadata (some t) o =
    (s : State) × (r : BotCmdResult) × (env.run_trigger s t metadata.dest metadata.prefix text
      ≡ ok r)
    × (o ≡ some r)

trigger_result-done :
    (t : Trigger) (x : Result Text BotCmdResult) (r : BotCmdResult)
    → trigger_result t x ≡ done r
    → x ≡ ok r
unfolding trigger_result
trigger_result-done t (ok q) r h = cc
trigger_result-done t (err payload) r h = cc

both_branches :
    (b c : Bool) (e : Error) (m : Outcome BotCmdResult) (r : BotCmdResult)
    → (if b then failed e else if c then m else panicked) ≡ done r
    → m ≡ done r
both_branches true c e m r h = cc
both_branches false true e m r h = h
both_branches false false e m r h = cc

run_trigger-done :
    (env : Env) (s : State) (text : Text) (metadata : MsgMetadata) (t : Trigger) (r : BotCmdResult)
    → run_trigger env s text metadata t ≡ done r
    → env.run_trigger s t metadata.dest metadata.prefix text ≡ ok r
unfolding run_trigger trigger_result
run_trigger-done env s text metadata t r h =
    trigger_result-done t (env.run_trigger s t metadata.dest metadata.prefix text) r (
      both_branches t.regex.poisoned (env.regex.is_match t.regex.content text) _
        (trigger_result t (env.run_trigger s t metadata.dest metadata.prefix text)) r h)

-- If `rand_iter` yields the elements of its list, a search that ends without an error answers with
-- what the handler of a trigger came to that matches the text and has the highest priority of those
-- that match, or, if no trigger matches, with nothing.
pub run_any_matching-IsFound :
    (env : Env) (s : State) (text : Text) (metadata : MsgMetadata) (o : Option BotCmdResult)
    → IsFair env
    → (run_any_matching env s text metadata).0 ≡ done o
    → (t : Option Trigger) × IsFound env text (reverse s.triggers) t
      × IsAnswer env text metadata t o
unfolding run_any_matching
run_any_matching-IsFound env s text metadata o fair h =
    let s' = (find_trigger env text (reverse s.triggers) s).1 in
    let (t, e, h') =
      keep-eq-some (find_trigger env text (reverse s.triggers) s).0 s'
        (λ trigger.
          on_option trigger (done none, s')
            λ t. keep (run_trigger env s' text metadata t) s' λ r. (done (some r), s'))
        o h in
    (t, find_trigger-IsFound env text (reverse s.triggers) s t fair e, answer t h')
  where
    answer :
        (t : Option Trigger)
        → (on_option t
            (done none, (find_trigger env text (reverse s.triggers) s).1)
            λ t.
              keep
                (run_trigger env (find_trigger env text (reverse s.triggers) s).1 text metadata t)
                (find_trigger env text (reverse s.triggers) s).1
                λ r. (done (some r), (find_trigger env text (reverse s.triggers) s).1)).0
          ≡ done o
        → IsAnswer env text metadata t o
    answer none h = cc
    answer (some t) h =
        let s' = (find_trigger env text (reverse s.triggers) s).1 in
        let (r, e, f) =
          keep-eq-some (run_trigger env s' text metadata t) s' (λ r. (done (some r), s')) o h in
        (s', r, run_trigger-done env s' text metadata t r e, sym (done-injective f))
