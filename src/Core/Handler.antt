-- ===== src/Core/Handler.antt =====
-- What a handler is given and comes to (src/core/handler.rs, and the conversions into `BotCmdResult` of
-- src/core/bot_cmd.rs).
use irc_bot_rs.Base.{◌≡◌, refl, Option, none, some, Result, ok, err}
use irc_bot_rs.Util.Yaml.{Yaml, hash, Fields, Error as YamlError}
use irc_bot_rs.Core.Env.{Env}
use irc_bot_rs.Core.Err.{yaml_util, Outcome, done, failed, panicked, out_of_fuel}
use irc_bot_rs.Core.Irc.{MsgDest, MsgMetadata}
use irc_bot_rs.Core.Prefix.{MsgPrefix}
use irc_bot_rs.Core.Reaction.{BotCmdResult, lib_err}
use irc_bot_rs.Core.Reply.{guess_reply_dest}
use irc_bot_rs.Core.State.{State}

-- The feature that the handler runs for is left out: no handler reads it.
pub record HandlerContext : Type 0 where
  pub state : State
  pub request_origin : MsgDest
  pub invoker : MsgPrefix

-- What code of type `Result<_, BotCmdResult>` comes to, as `Outcome`.
pub data Attempt {ℓ} (A : Type ℓ) : Type ℓ where
  got : A → Attempt A
  refused : BotCmdResult → Attempt A
  crashed : Attempt A
  unfinished : Attempt A

infixl 5 ◌>>=◌
abbrev pub ◌>>=◌ {ℓ κ} : {A : Type ℓ} {B : Type κ} → Attempt A → (A → Attempt B) → Attempt B
got a >>= f = f a
refused r >>= f = refused r
crashed >>= f = crashed
unfinished >>= f = unfinished

-- `?` on this library's errors: `From<Error> for BotCmdResult`
abbrev pub lift {ℓ} : {A : Type ℓ} → Outcome A → Attempt A
lift (done a) = got a
lift (failed e) = refused (lib_err e)
lift panicked = crashed
lift out_of_fuel = unfinished

-- `?` on the errors of src/util/yaml.rs
abbrev pub lift_yaml : {A : Type 0} → Result YamlError A → Attempt A
lift_yaml (ok a) = got a
lift_yaml (err e) = refused (lib_err (yaml_util e))

-- `From<Result<T, E>> for BotCmdResult`; a panic is left as it is.
abbrev pub into_result : Attempt BotCmdResult → Outcome BotCmdResult
into_result (got r) = done r
into_result (refused r) = done r
into_result crashed = panicked
into_result unfinished = out_of_fuel

-- `as_hash().expect(FW_SYNTAX_CHECK_FAIL)`
abbrev pub expect_hash : Yaml → Attempt Fields
expect_hash (hash fs) = got fs
expect_hash other = crashed

-- `try_map`
abbrev pub try_map : {A B : Type 0} → Option A → (A → Attempt B) → Attempt (Option B)
try_map none f = got none
try_map (some a) f = f a >>= λ b. got (some b)

abbrev pub request_metadata : HandlerContext → MsgMetadata
request_metadata ctx = record { dest = ctx.request_origin; prefix = ctx.invoker }

-- `HandlerContext::guess_reply_dest`
unfoldable pub context_reply_dest : Env → HandlerContext → Outcome MsgDest
context_reply_dest env ctx = guess_reply_dest env ctx.state (request_metadata ctx)

pub >>=-eq-got {ℓ κ} :
    {A : Type ℓ} {B : Type κ} (m : Attempt A) (next : A → Attempt B) {b : B}
    → (m >>= next) ≡ got b
    → (a : A) × (m ≡ got a) × (next a ≡ got b)
>>=-eq-got (got a) next e = (a, refl, e)
>>=-eq-got (refused r) next e = cc
>>=-eq-got crashed next e = cc
>>=-eq-got unfinished next e = cc

pub lift-got : {A : Type 0} (m : Outcome A) (a : A) → lift m ≡ got a → m ≡ done a
lift-got (done b) a h = cc
lift-got (failed e) a h = cc
lift-got panicked a h = cc
lift-got out_of_fuel a h = cc
