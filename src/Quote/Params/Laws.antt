-- ===== src/Quote/Params/Laws.antt =====
-- What the parameters of a query are.
use irc_bot_rs.Base.{
  ◌≡◌, refl, sym, map, ap, ◌∙◌, subst, inl, inr, true, false, Bool-cases, Option, none, some, List,
  [], ◌∷◌, All,
}
use irc_bot_rs.Text.{Text, codes}
use irc_bot_rs.Util.Regex.{RegexBuilder, RegexCrate, standard, builder_from_str, new_builder}
use irc_bot_rs.Util.Yaml.{
  Yaml, string, hash, Fields, iter_as_seq, any_to_str, get, get_arg_by_short_or_long_key,
}
use irc_bot_rs.Core.Handler.{HandlerContext, Attempt, got, refused, lift_yaml, try_map, >>=-eq-got}
use irc_bot_rs.Core.Reaction.{param_unauthorized}
use irc_bot_rs.Core.State.{have_admin}
use irc_bot_rs.Quote.{QuoteParams, AntiPingTactic}
use irc_bot_rs.Quote.Pick.{QuoteEnv}
use irc_bot_rs.Quote.Params.{
  scalar, regex_from_str, collect_map, parsed_tactic, yaml_str_anti_ping_tactic, check_admin_params,
  parse_regex_term, terms_by_keys, prepare_quote_params,
}

regex_from_str-new_builder :
    (crate : RegexCrate) (s : Text) (r : RegexBuilder)
    → regex_from_str crate standard s ≡ got r
    → r ≡ new_builder s
unfolding regex_from_str builder_from_str
regex_from_str-new_builder crate s r h = elim (Bool-cases (crate.builds (new_builder s))) [
  | inl y ↦ let e : new_builder s ≡ r = cc (rw y at h) in sym e
  | inr n ↦ cc (rw n at h)
]

unflagged : (ts : List Text) → All (λ r. r.case_insensitive ≡ false) (map new_builder ts)
unflagged [] = tt
unflagged (t ∷ ts) = (refl, unflagged ts)

module _ (q_env : QuoteEnv) where
  -- A term given in the argument `regex`, as text
  abbrev pub term : Yaml → Attempt Text
  term = scalar q_env (codes "a search term given in the argument `regex`")

  parse_regex_term-new_builder :
      (y : Yaml) (r : RegexBuilder)
      → parse_regex_term q_env y ≡ got r
      → (t : Text) × (term y ≡ got t) × (r ≡ new_builder t)
  unfolding parse_regex_term
  parse_regex_term-new_builder y r h =
      let (t, e, h') = >>=-eq-got (term y) _ h in
      (t, e, regex_from_str-new_builder q_env.env.regex t r h')

  got-injective : {A : Type 0} {a b : A} → ◌≡◌ {A = Attempt A} (got a) (got b) → a ≡ b
  got-injective h = cc

  collected_terms :
      (ys : List Yaml) (rs : List RegexBuilder)
      → collect_map (parse_regex_term q_env) ys ≡ got rs
      → (ts : List Text) × (collect_map term ys ≡ got ts) × (rs ≡ map new_builder ts)
  unfolding collect_map
  collected_terms [] rs h = ([], refl, sym (got-injective h))
  collected_terms (y ∷ ys) rs h =
      let (r, e, h') = >>=-eq-got (parse_regex_term q_env y) _ h in
      let (rest, f, h'') = >>=-eq-got (collect_map (parse_regex_term q_env) ys) _ h' in
      let (t, given, built) = parse_regex_term-new_builder y r e in
      let (ts, given_rest, built_rest) = collected_terms ys rest f in
      (
        t ∷ ts,
        rw (given, given_rest) refl,
        sym (got-injective h'')
            ∙ ap (λ x. x ∷ rest) built
            ∙ ap (λ xs. new_builder t ∷ xs) built_rest,
      )

  -- The terms of a query that are given under either key
  abbrev pub AreGiven : Fields → List Text → Type 0
  AreGiven arg ts =
      (given : Option Yaml) × (lift_yaml (
          get_arg_by_short_or_long_key q_env.env.yaml arg (string (codes "r"))
            (string (codes "regex")))
        ≡ got given)
      × (collect_map term (iter_as_seq given) ≡ got ts)

  given_terms :
      (arg : Fields) (rs : List RegexBuilder)
      → terms_by_keys q_env (parse_regex_term q_env) arg (codes "r") (codes "regex") ≡ got rs
      → (ts : List Text) × AreGiven arg ts × (rs ≡ map new_builder ts)
  unfolding terms_by_keys
  given_terms arg rs h =
      let (given, e, h') =
        >>=-eq-got
          (lift_yaml (
            get_arg_by_short_or_long_key q_env.env.yaml arg (string (codes "r"))
              (string (codes "regex"))))
          _ h in
      let (ts, collected, built) = collected_terms (iter_as_seq given) rs h' in
      (ts, (given, e, collected), built)

  -- Whoever is not an admin is refused if the argument has the parameter for admins.
  pub prepare_quote_params-refused :
      (ctx : HandlerContext) (arg : Fields) (y : Yaml)
      → have_admin ctx.state ctx.invoker ≡ false
      → get q_env.env.yaml arg yaml_str_anti_ping_tactic ≡ some y
      → prepare_quote_params q_env ctx (hash arg)
        ≡ refused (param_unauthorized (codes "anti-ping tactic"))
  unfolding prepare_quote_params check_admin_params any_to_str
  prepare_quote_params-refused ctx arg y no_admin given = rw (given, no_admin) refl

  tactic_given :
      (o : Option Yaml) (f : Yaml → Attempt Text) (g : Text → Attempt AntiPingTactic)
      (tactic_str : Option Text) (tactic : Option AntiPingTactic) (t : AntiPingTactic)
      → try_map o f ≡ got tactic_str
      → try_map tactic_str g ≡ got tactic
      → tactic ≡ some t
      → (y : Yaml) × (o ≡ some y)
  tactic_given (some y) f g tactic_str tactic t h k e = (y, refl)
  tactic_given none f g none tactic t h k e = cc
  tactic_given none f g (some s) tactic t h k e = cc

  -- What the parts of the parameters are read from, as far as it is needed.
  inversion :
      (ctx : HandlerContext) (arg : Fields) (params : QuoteParams)
      → prepare_quote_params q_env ctx (hash arg) ≡ got params
      → (regexes : List RegexBuilder) × (terms_by_keys q_env
            (parse_regex_term q_env)
            arg
            (codes "r")
            (codes "regex")
          ≡ got regexes)
        × (tactic_str : Option Text) × (tactic : Option AntiPingTactic) × (try_map
              (get q_env.env.yaml arg yaml_str_anti_ping_tactic)
              (scalar q_env (codes "the argument `anti-ping tactic`"))
            ≡ got tactic_str)
        × (try_map tactic_str (λ s. parsed_tactic (q_env.parse_tactic s)) ≡ got tactic)
        × (record {
          regexes = regexes;
          literals = params.literals;
          tags = params.tags;
          id = params.id;
          anti_ping_tactic = tactic;
        }
            ≡ params)
  unfolding prepare_quote_params
  inversion ctx arg params h =
      let (u, admin, h1) = >>=-eq-got (check_admin_params q_env ctx arg) _ h in
      let (regexes, r, h2) =
        >>=-eq-got (terms_by_keys q_env (parse_regex_term q_env) arg (codes "r") (codes "regex")) _
          h1 in
      let (literals, l, h3) =
        >>=-eq-got
          (terms_by_keys q_env (scalar q_env (codes "a search term given in the argument `string`"))
            arg (codes "s") (codes "string"))
          _ h2 in
      let (tags, t, h4) =
        >>=-eq-got
          (collect_map (scalar q_env (codes "a search term given in the argument `tag`"))
            (iter_as_seq (get q_env.env.yaml arg (string (codes "tag")))))
          _ h3 in
      let (id, i, h5) =
        >>=-eq-got
          (try_map (get q_env.env.yaml arg (string (codes "id")))
            (scalar q_env (codes "the argument `id`")))
          _ h4 in
      let (tactic_str, ts, h6) =
        >>=-eq-got
          (try_map (get q_env.env.yaml arg yaml_str_anti_ping_tactic)
            (scalar q_env (codes "the argument `anti-ping tactic`")))
          _ h5 in
      let (tactic, tt', h7) =
        >>=-eq-got (try_map tactic_str (λ s. parsed_tactic (q_env.parse_tactic s))) _ h6 in
      let e = got-injective h7 in (regexes, r, tactic_str, tactic, ts, tt', cc e)

  -- The regexes of a query are built, one for each of the terms that are given for them and in their
  -- order, from the text of the term as it is, and with the flag for matching without regard to case
  -- off (a term may still have such a flag within its text).
  pub prepare_quote_params-new_builder :
      (ctx : HandlerContext) (arg : Fields) (params : QuoteParams)
      → prepare_quote_params q_env ctx (hash arg) ≡ got params
      → (ts : List Text) × AreGiven arg ts
        × (params.regexes ≡ map new_builder ts)
        × All (λ r. r.case_insensitive ≡ false) params.regexes
  prepare_quote_params-new_builder ctx arg params h =
      let (regexes, r, tactic_str, tactic, ts, t, e) = inversion ctx arg params h in
      let (terms, given, built) = given_terms arg regexes r in
      let same : params.regexes ≡ map new_builder terms = sym (ap QuoteParams.regexes e) ∙ built in
      (terms, given, same, subst (All λ b. b.case_insensitive ≡ false) (sym same) (unflagged terms))

  -- A query overrides the tactic against pings only if the invoker is an admin.
  pub prepare_quote_params_admin :
      (ctx : HandlerContext) (arg : Fields) (params : QuoteParams) (tactic : AntiPingTactic)
      → prepare_quote_params q_env ctx (hash arg) ≡ got params
      → params.anti_ping_tactic ≡ some tactic
      → have_admin ctx.state ctx.invoker ≡ true
  prepare_quote_params_admin ctx arg params x h given =
      let (regexes, r, tactic_str, tactic, ts, t, e) = inversion ctx arg params h in
      let given_key : (y : Yaml) × (get q_env.env.yaml arg yaml_str_anti_ping_tactic ≡ some y) =
        tactic_given _ _ _ tactic_str tactic x ts t (ap QuoteParams.anti_ping_tactic e ∙ given) in
      elim (Bool-cases (have_admin ctx.state ctx.invoker)) [
        | inl is_admin ↦ is_admin
        | inr no_admin ↦
            cc (prepare_quote_params-refused ctx arg given_key.0 no_admin given_key.1, h)
      ]
