-- ===== src/Core/Prefix/Addressing.antt =====
-- Which messages are taken as addressed to the bot, and what is left of them.
use irc_bot_rs.Base.{
  ℕ, ◌+◌, ◌<◌, ◌≡◌, ◌↔◌, ◌⊎◌, inl, inr, refl, sym, ap, ◌∙◌, subst, true, false, Bool-cases, Option,
  none, some, [], ◌∷◌, ◌++◌, arith, ◌==◌, ◌&&◌, length, drop,
}
use mathlib.Core.Bool.{false≢true}
use irc_bot_rs.Text.{
  Text, char_len, len, text_eq, starts_with, find_from, trim, trim_start_by, trim_start_text,
}
use irc_bot_rs.Text.Laws.{
  Lacks, text_eq_iff, char_len_pos, find_from-ge, find_from-Lacks, starts_with-append,
  starts_with_split, trim_start_text-append, trim_start_text_stop, trim_start_text_nil,
  text_eq_refl,
}
use irc_bot_rs.Core.Prefix.{is_separator, some_index_eq, is_msg_to_nick, parse_msg_to_nick}

-- `nick`, a colon or comma, and anything; the nickname has neither.
abbrev pub IsAddressed : Text → Text → Type 0
IsAddressed msg nick =
    (c : ℕ) × (rest : Text) × (is_separator c ≡ true)
    × (msg ≡ nick ++ c ∷ rest)
    × Lacks is_separator nick

some_index_eq→eq : (o : Option ℕ) (n : ℕ) → some_index_eq o n ≡ true → o ≡ some n
some_index_eq→eq none n h = cc
some_index_eq→eq (some i) n h = ap some (ground arith)

not_before : (i j : ℕ) (s : Text) → i < j → some_index_eq (find_from j is_separator s) i ≡ true → ⊥
not_before i j s l h =
    let le = find_from-ge j is_separator s i (some_index_eq→eq (find_from j is_separator s) i h) in
    omega arith

find_at_end :
    (i : ℕ) (nick r : Text)
    → some_index_eq (find_from i is_separator (nick ++ r)) (i + len nick) ≡ true
    → (c : ℕ) × (rest : Text) × (is_separator c ≡ true) × (r ≡ c ∷ rest) × Lacks is_separator nick
unfolding find_from
find_at_end i [] [] h = cc
find_at_end i [] (c ∷ r) h = elim (Bool-cases (is_separator c)) [
  | inl m ↦ (c, r, m, refl, tt)
  | inr m ↦
      absurd (not_before (i + 0) (i + char_len c) r (omega (arith, char_len_pos c)) (rw m at h))
]
find_at_end i (d ∷ nick) r h = elim (Bool-cases (is_separator d)) [
  | inl m ↦ absurd (not_here i d nick m (rw m at h))
  | inr m ↦ extend nick r d m (
      find_at_end (i + char_len d) nick r (
        ap (some_index_eq (find_from (i + char_len d) is_separator (nick ++ r))) (omega arith)
        ∙ (rw m at h)))
]
  where
    not_here :
        (i d : ℕ) (nick : Text)
        → is_separator d ≡ true
        → (i == i + (char_len d + len nick)) ≡ true
        → ⊥
    not_here i d nick m h = ground (arith, char_len_pos d)

    extend :
        (nick r : Text) (d : ℕ)
        → is_separator d ≡ false
        → (c : ℕ) × (rest : Text) × (is_separator c ≡ true)
          × (r ≡ c ∷ rest)
          × Lacks is_separator nick
        → (c : ℕ) × (rest : Text) × (is_separator c ≡ true)
          × (r ≡ c ∷ rest)
          × Lacks is_separator (d ∷ nick)
    extend nick r d m (c, rest, k, e, l) = (c, rest, k, e, (m, l))

found_nick :
    (nick r : Text)
    → some_index_eq (find_from 0 is_separator (nick ++ r)) (len nick) ≡ true
    → IsAddressed (nick ++ r) nick
found_nick nick r h =
    let (c, rest, m, e, l) =
      find_at_end 0 nick r
        (ap (some_index_eq (find_from 0 is_separator (nick ++ r))) (omega arith) ∙ h) in
    (c, rest, m, ap (λ t. nick ++ t) e, l)

found_in_message :
    (msg nick : Text)
    → (starts_with msg nick && some_index_eq (find_from 0 is_separator msg) (len nick)) ≡ true
    → IsAddressed msg nick
found_in_message msg nick h = elim (Bool-cases (starts_with msg nick)) [
  | inl m ↦
      let e = starts_with_split msg nick m in
      subst (λ t. IsAddressed t nick) (sym e)
        (found_nick nick (drop (length nick) msg)
          (subst (λ t. some_index_eq (find_from 0 is_separator t) (len nick) ≡ true) e (rw m at h)))
  | inr m ↦ absurd (false≢true (rw m at h))
]

addressed_found :
    (msg nick : Text)
    → IsAddressed msg nick
    → (starts_with msg nick && some_index_eq (find_from 0 is_separator msg) (len nick)) ≡ true
addressed_found msg nick (c, rest, m, e, l) =
    rw (e, starts_with-append nick (c ∷ rest), find_from-Lacks 0 is_separator nick (c ∷ rest) l)
      (unfold find_from in rw m (ground arith))

-- A message counts as addressed to the bot exactly when it was sent to the bot's nickname, is that
-- nickname, or begins with the nickname and then its first colon or comma.
is_msg_to_nick_iff :
    (target msg nick : Text)
    → (is_msg_to_nick target msg nick ≡ true)
      ↔ ((target ≡ nick) ⊎ ((msg ≡ nick) ⊎ IsAddressed msg nick))
unfolding is_msg_to_nick
is_msg_to_nick_iff target msg nick = (
  λ h. elim (Bool-cases (text_eq target nick)) [
    | inl t ↦ inl ((text_eq_iff target nick).0 t)
    | inr t ↦ elim (Bool-cases (text_eq msg nick)) [
      | inl m ↦ inr (inl ((text_eq_iff msg nick).0 m))
      | inr m ↦ inr (inr (found_in_message msg nick (rw (t, m) at h)))
    ]
  ],
  elim [
    | inl t ↦ rw ((text_eq_iff target nick).1 t)
    | inr (inl m) ↦ ground (arith, text_eq_iff msg nick)
    | inr (inr a) ↦ ground (arith, addressed_found msg nick a)
  ],
)

-- In a channel, `nick`, a colon or comma and a text is read as that text, without further leading
-- colons and commas and without outer whitespace.
pub parse_msg_to_nick_channel :
    (target nick rest : Text) (c : ℕ)
    → is_separator c ≡ true
    → Lacks is_separator nick
    → parse_msg_to_nick (nick ++ c ∷ rest) target nick
      ≡ some (trim (trim_start_by is_separator rest))
parse_msg_to_nick_channel target nick rest c m l =
    let here =
      (is_msg_to_nick_iff target (nick ++ c ∷ rest) nick).1 (inr (inr (c, rest, m, refl, l))) in
    unfold parse_msg_to_nick trim_start_by in
    rw (here, trim_start_text-append (c ∷ rest) nick, stop nick l) (rw m)
  where
    stop : (nick : Text) → Lacks is_separator nick → trim_start_text (c ∷ rest) nick ≡ c ∷ rest
    stop [] l = trim_start_text_nil (c ∷ rest)
    stop (d ∷ nick) l = trim_start_text_stop (c ∷ rest) (d ∷ nick) (ground (arith, l.0))

-- In one-to-one messages, a leading copy of the bot's nickname is dropped also where it is only the
-- beginning of a word: the text is read as if the copy were not there.
parse_msg_to_nick_private :
    (nick rest : Text)
    → parse_msg_to_nick (nick ++ rest) nick nick ≡ parse_msg_to_nick rest nick nick
unfolding parse_msg_to_nick is_msg_to_nick
parse_msg_to_nick_private nick rest = rw (text_eq_refl nick, trim_start_text-append rest nick)
