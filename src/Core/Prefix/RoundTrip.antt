-- ===== src/Core/Prefix/RoundTrip.antt =====
-- Parsing and printing of message prefixes, and the update of the stored prefix.
use irc_bot_rs.Base.{
  ℕ, ◌+◌, ◌≤◌, ◌≡◌, ◌≢◌, ◌↔◌, ◌⊎◌, inl, inr, refl, sym, Bool, Option, none, some, [], ◌∷◌, ◌++◌,
  append_assoc, append-nil, arith, unwrap_or,
}
use mathlib.Core.List.{cons-ne-nil}
use irc_bot_rs.Text.{Text, len, splitn_2, rsplitn_2}
use irc_bot_rs.Text.Laws.{
  Lacks, len-append, splitn_2-append, splitn_2_first, rsplitn_2-Lacks, rsplitn_2-append,
  rsplitn_2_first,
}
use irc_bot_rs.Core.Prefix.{
  MsgPrefix, OwningMsgPrefix, is_at, is_bang, parse_prefix, component_len, prefix_len, no_host,
  fmt_rest, fmt_write, to_owning, parse, updated, update_from,
}

abbrev pub full : Text → Text → Text → MsgPrefix
full n u h = record { nick = some n; user = some u; host = some h }

-- `nick!user@host` is read back as its three parts.
pub parse_prefix-full :
    (n u h : Text)
    → Lacks is_bang n
    → Lacks is_at h
    → parse_prefix (n ++ b'!' ∷ (u ++ b'@' ∷ h)) ≡ full n u h
unfolding parse_prefix
parse_prefix-full n u h ln lh =
    let e : n ++ b'!' ∷ (u ++ b'@' ∷ h) ≡ (n ++ b'!' ∷ u) ++ b'@' ∷ h =
      sym (append_assoc n (b'!' ∷ u) (b'@' ∷ h)) in
    rw e (
      cc (
        rsplitn_2-append is_at (n ++ b'!' ∷ u) h b'@' lh refl,
        splitn_2-append is_bang n u b'!' ln refl,
      ))

-- What every parsed prefix looks like: it has a nickname without `!` and a host without `@`.
pub record IsParsed (p : MsgPrefix) : Type 0 where
  pub nick_text : Text
  pub host_text : Text
  pub nick_eq : p.nick ≡ some nick_text
  pub host_eq : p.host ≡ some host_text
  pub nick_lacks : Lacks is_bang nick_text
  pub host_lacks : Lacks is_at host_text

-- Parsing any text gives a nickname (which may be empty and holds no `!`) and a host without `@`.
parse_prefix-IsParsed : (s : Text) → IsParsed (parse_prefix s)
unfolding parse_prefix
parse_prefix-IsParsed s = record {
  nick_text = (splitn_2 is_bang (unwrap_or (rsplitn_2 is_at s).1 [])).0;
  host_text = (rsplitn_2 is_at s).0;
  nick_eq = refl;
  host_eq = refl;
  nick_lacks = splitn_2_first is_bang _;
  host_lacks = rsplitn_2_first is_at s;
}

parse-IsParsed : (o : OwningMsgPrefix) → IsParsed (parse o)
unfolding parse
parse-IsParsed o = parse_prefix-IsParsed o.backing

-- Printing a complete prefix and parsing the print gives the prefix back, when the user and the host
-- are not empty, the nickname has no `!` and the host has no `@`.
pub parse-to_owning :
    (n u h : Text)
    → Lacks is_bang n
    → Lacks is_at h
    → u ≢ []
    → h ≢ []
    → parse (to_owning (full n u h)) ≡ full n u h
unfolding parse to_owning
parse-to_owning n [] h ln lh nu nh = absurd (nu refl)
parse-to_owning n (c ∷ u) [] ln lh nu nh = absurd (nh refl)
parse-to_owning n (c ∷ u) (d ∷ h) ln lh nu nh = parse_prefix-full n (c ∷ u) (d ∷ h) ln lh

-- A bare nickname, which is a valid prefix of the protocol, is parsed as a host with an empty
-- nickname, so printing and parsing it loses the nickname.
to_owning_bare_nick :
    (n : Text)
    → Lacks is_at n
    → parse (to_owning (record { nick = some n; user = none; host = none }))
      ≡ record { nick = some []; user = none; host = some n }
unfolding parse to_owning parse_prefix splitn_2
to_owning_bare_nick n h = rw append-nil (cc (rsplitn_2-Lacks is_at n h))

updated-Lacks :
    (p : ℕ → Bool) (old new : Option Text)
    → Lacks p (unwrap_or old [])
    → Lacks p (unwrap_or new [])
    → Lacks p (updated old new)
updated-Lacks p old (some s) ho hn = hn
updated-Lacks p (some s) none ho hn = ho
updated-Lacks p none none ho hn = tt

-- Each field that the new prefix sets replaces the stored one, the others stay (an unset user
-- becomes empty), if the new nickname has no `!` and the new host no `@`.
pub parse-update_from :
    (o : OwningMsgPrefix) (new : MsgPrefix)
    → Lacks is_bang (unwrap_or new.nick [])
    → Lacks is_at (unwrap_or new.host [])
    → parse (update_from o new)
      ≡ full
          (updated (parse o).nick new.nick)
          (updated (parse o).user new.user)
          (updated (parse o).host new.host)
unfolding parse update_from
parse-update_from o new hn hh =
    let p = parse-IsParsed o in
    parse_prefix-full (updated (parse o).nick new.nick) (updated (parse o).user new.user)
      (updated (parse o).host new.host)
      (updated-Lacks is_bang (parse o).nick new.nick (rw p.nick_eq p.nick_lacks) hn)
      (updated-Lacks is_at (parse o).host new.host (rw p.host_eq p.host_lacks) hh)

component_len-len : (o : Option Text) → component_len o ≡ len (unwrap_or o [])
unfolding component_len
component_len-len none = refl
component_len-len (some s) = refl

-- A user needs a host.
abbrev pub UserHasHost : Text → Text → Type 0
UserHasHost u h = (u ≡ []) ⊎ (h ≢ [])

fmt_rest-len : (u h : Text) → (len (fmt_rest u h) ≤ len u + len h + 2) ↔ UserHasHost u h
unfolding fmt_rest
fmt_rest-len [] [] = (λ _. inl refl, λ _. omega arith)
fmt_rest-len [] (d ∷ h) = (λ _. inl refl, λ _. omega arith)
fmt_rest-len (c ∷ u) [] = (λ b. absurd (omega (arith, len-append u no_host)), λ e. ground arith)
fmt_rest-len (c ∷ u) (d ∷ h) =
    (λ b. inr (cons-ne-nil d h), λ _. omega (arith, len-append u (b'@' ∷ d ∷ h)))

-- `len` bounds the length in bytes of the printed prefix exactly when a user that is not empty comes
-- with a host that is not empty.
pub fmt_write-len :
    (p : MsgPrefix)
    → (len (fmt_write p) ≤ prefix_len p) ↔ UserHasHost (unwrap_or p.user []) (unwrap_or p.host [])
unfolding fmt_write prefix_len
fmt_write-len p =
    let n = unwrap_or p.nick [] in
    let u = unwrap_or p.user [] in
    let h = unwrap_or p.host [] in
    let bound = fmt_rest-len u h in
    let e = len-append n (fmt_rest u h) in
    let en = component_len-len p.nick in
    let eu = component_len-len p.user in
    let eh = component_len-len p.host in (λ b. bound.0 (omega arith), λ k. omega (arith, bound.1 k))
