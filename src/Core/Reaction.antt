-- ===== src/Core/Reaction.antt =====
-- src/core/reaction.rs and the results of handlers (src/core/bot_cmd.rs).
use irc_bot_rs.Base.{Option, none, some, List, [], ◌∷◌, ◌++◌}
use irc_bot_rs.Text.{Text}
use irc_bot_rs.Core.Err.{Error}

pub data Reaction : Type 0 where
  nothing : Reaction
  msg : Text → Reaction
  msgs : List Text → Reaction
  reply : Text → Reaction
  replies : List Text → Reaction
  raw_msg : Text → Reaction
  quit : Option Text → Reaction

pub data ErrorReaction : Type 0 where
  proceed : ErrorReaction
  quit : Option Text → ErrorReaction

pub data BotCmdResult : Type 0 where
  ok : Reaction → BotCmdResult
  unauthorized : BotCmdResult
  param_unauthorized : Text → BotCmdResult
  syntax_err : BotCmdResult
  arg_missing : Text → BotCmdResult
  arg_missing_1to1 : Text → BotCmdResult
  lib_err : Error → BotCmdResult
  user_err_msg : Text → BotCmdResult
  bot_err_msg : Text → BotCmdResult

-- What the framework itself sends; `multi` holds a list of its own kind.
mutual
  pub data LibReaction {ℓ} (M : Type ℓ) : Type ℓ where
    raw_msg : M → LibReaction M
    multi : LibReactions M → LibReaction M

  pub data LibReactions {ℓ} (M : Type ℓ) : Type ℓ where
    nil : LibReactions M
    cons : LibReaction M → LibReactions M → LibReactions M

-- The messages of a reaction, in the order in which they are processed.
abbrev mutual
  pub flatten {ℓ} : {M : Type ℓ} → LibReaction M → List M
  flatten (LibReaction.raw_msg m) = m ∷ []
  flatten (multi rs) = flatten_all rs

  pub flatten_all {ℓ} : {M : Type ℓ} → LibReactions M → List M
  flatten_all nil = []
  flatten_all (cons r rs) = flatten r ++ flatten_all rs

abbrev pub flatten_option {ℓ} : {M : Type ℓ} → Option (LibReaction M) → List M
flatten_option none = []
flatten_option (some r) = flatten r
