-- ===== src/Quote/Params.antt =====
-- The parameters of the command `quote` (`prepare_quote_params`).
pub mod Laws
use irc_bot_rs.Base.{
  Bool, true, false, not, ◌&&◌, Option, none, some, List, [], ◌∷◌, if◌then◌else◌, is_some, Result,
  ok, err,
}
use irc_bot_rs.Text.{Text, codes}
use irc_bot_rs.Util.Regex.{RegexBuilder, RegexCrate, RegexConfig, standard, builder_from_str}
use irc_bot_rs.Util.Yaml.{
  Yaml, string, Fields, iter_as_seq, any_to_str, scalar_to_str, get, get_arg_by_short_or_long_key,
}
use irc_bot_rs.Core.Err.{Error, regex, serde_yaml}
use irc_bot_rs.Core.Handler.{
  HandlerContext, Attempt, got, refused, ◌>>=◌, lift_yaml, expect_hash, try_map,
}
use irc_bot_rs.Core.Reaction.{param_unauthorized, lib_err}
use irc_bot_rs.Core.State.{have_admin}
use irc_bot_rs.Quote.{QuoteParams, AntiPingTactic}
use irc_bot_rs.Quote.Pick.{QuoteEnv}

-- `Regex::from_str`: the builder is built; what the crate says of an error is left out.
unfoldable pub regex_from_str : RegexCrate → RegexConfig → Text → Attempt RegexBuilder
unfolding builder_from_str
regex_from_str crate config s =
    if crate.builds (builder_from_str config s)
    then got (builder_from_str config s)
    else refused (lib_err (regex s))

-- `map(..).collect()`: the first error ends it.
unfoldable pub collect_map : {A B : Type 0} → (A → Attempt B) → List A → Attempt (List B)
collect_map f [] = got []
collect_map f (x ∷ xs) = do y ← f x; ys ← collect_map f xs; got (y ∷ ys)

abbrev pub parsed_tactic : Result Text AntiPingTactic → Attempt AntiPingTactic
parsed_tactic (ok t) = got t
parsed_tactic (err e) = refused (lib_err (serde_yaml e))

abbrev pub yaml_str_anti_ping_tactic : Yaml
yaml_str_anti_ping_tactic = string (codes "anti-ping tactic")

module _ (q_env : QuoteEnv) where
  -- `scalar_to_str`, with `?`
  abbrev pub scalar : Text → Yaml → Attempt Text
  scalar label y = lift_yaml (scalar_to_str q_env.env.yaml y label)

  -- The parameters for admins only; there is one.
  unfoldable pub check_admin_params : HandlerContext → Fields → Attempt (Unit {0})
  check_admin_params ctx arg =
      if is_some (get q_env.env.yaml arg yaml_str_anti_ping_tactic)
        && not (have_admin ctx.state ctx.invoker)
      then (do
        name ← lift_yaml (any_to_str q_env.env.yaml yaml_str_anti_ping_tactic)
        refused (param_unauthorized name))
      else got tt

  unfoldable pub parse_regex_term : Yaml → Attempt RegexBuilder
  unfolding regex_from_str
  parse_regex_term y = do
    s ← scalar (codes "a search term given in the argument `regex`") y
    regex_from_str q_env.env.regex standard s

  -- Both parameters have a short key and a long one.
  unfoldable pub terms_by_keys :
      {A : Type 0} → (Yaml → Attempt A) → Fields → Text → Text → Attempt (List A)
  unfolding collect_map
  terms_by_keys f arg short long = do
    given ← lift_yaml (get_arg_by_short_or_long_key q_env.env.yaml arg (string short) (string long))
    collect_map f (iter_as_seq given)

  unfoldable pub prepare_quote_params : HandlerContext → Yaml → Attempt QuoteParams
  unfolding check_admin_params terms_by_keys parse_regex_term
  prepare_quote_params ctx arg_yaml = do
    arg ← expect_hash arg_yaml
    allowed ← check_admin_params ctx arg
    regexes ← terms_by_keys parse_regex_term arg (codes "r") (codes "regex")
    literals ←
        terms_by_keys (scalar (codes "a search term given in the argument `string`")) arg
          (codes "s") (codes "string")
    tags ←
        collect_map (scalar (codes "a search term given in the argument `tag`"))
          (iter_as_seq (get q_env.env.yaml arg (string (codes "tag"))))
    id ← try_map (get q_env.env.yaml arg (string (codes "id"))) (scalar (codes "the argument `id`"))
    tactic_str ←
        try_map (get q_env.env.yaml arg yaml_str_anti_ping_tactic)
          (scalar (codes "the argument `anti-ping tactic`"))
    tactic ← try_map tactic_str (λ s. parsed_tactic (q_env.parse_tactic s))
    got (record {
      regexes = regexes;
      literals = literals;
      tags = tags;
      id = id;
      anti_ping_tactic = tactic;
    })
