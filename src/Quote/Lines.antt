-- ===== src/Quote/Lines.antt =====
-- What the stripping of a quotation's lines keeps.
use irc_bot_rs.Base.{
  ℕ, ◌≡◌, refl, ap, ◌∙◌, inl, inr, true, false, Bool-cases, Option, some, List, [], ◌∷◌, ◌++◌,
  arith, is_nil,
}
use irc_bot_rs.Text.{Text, codes, len, trim, lines, drop_bytes, trim_start_text}
use irc_bot_rs.Text.Counts.{
  count, total, count-append, count-trim, count-trim_start_text, total-lines,
}
use irc_bot_rs.Text.Slices.{drop_bytes-append}
use irc_bot_rs.Quote.{
  Quotation, trimmed_lines, filter_map, strip_quotation_lines, strip_chat_metadata,
  chat_lines_stripped,
}

-- What `METADATA_REGEX` matches: it matches every line, at its start, and as it can repeat only
-- characters other than `*`, `<` and `>`, its match has no `<`.
abbrev pub IsMetadata : (Text → Option ℕ) → Type 0
IsMetadata find_metadata =
    (line : Text)
    → (before : Text) × (after : Text) × (line ≡ before ++ after)
      × (find_metadata line ≡ some (len before))
      × (count b'<' before ≡ 0)

total-trimmed_lines : (ls : List Text) → total b'<' (trimmed_lines ls) ≡ total b'<' ls
total-trimmed_lines [] = refl
total-trimmed_lines (l ∷ ls) = elim (Bool-cases (is_nil (trim l))) [
  | inl y ↦
      let e : count b'<' (trim l) ≡ 0 = empty_count (trim l) y in
      rw y (omega (arith, e, count-trim b'<' l no_space, total-trimmed_lines ls))
  | inr n ↦ rw n (omega (arith, count-trim b'<' l no_space, total-trimmed_lines ls))
]
  where
    empty_count : (s : Text) → is_nil s ≡ true → count b'<' s ≡ 0
    empty_count [] h = refl
    empty_count (c ∷ s) h = cc

    no_space : irc_bot_rs.Text.is_whitespace b'<' ≡ false
    no_space = unfold irc_bot_rs.Text.is_whitespace in refl

module _ (find_metadata : Text → Option ℕ) (m : IsMetadata find_metadata) where
  count-strip_chat_metadata :
      (line : Text)
      → (rest : Text) × (strip_chat_metadata find_metadata line ≡ some rest)
        × (count b'<' rest ≡ count b'<' line)
  unfolding strip_chat_metadata
  count-strip_chat_metadata line =
      let (before, after, e, f, none_before) = m line in
      let found : drop_bytes (len before) line ≡ some after =
        ap (λ x. drop_bytes (len before) x) e ∙ drop_bytes-append before after in
      (
        trim_start_text after (codes ">"),
        rw (f, found) refl,
        omega (
          arith,
          count-trim_start_text b'<' after (codes ">") refl,
          ap (λ x. count b'<' x) e,
          count-append b'<' before after,
          none_before,
        ),
      )

  total-filter_map :
      (ls : List Text)
      → total b'<' (filter_map (strip_chat_metadata find_metadata) ls) ≡ total b'<' ls
  total-filter_map [] = refl
  total-filter_map (l ∷ ls) =
      let (rest, e, same) = count-strip_chat_metadata l in
      rw e (omega (arith, same, total-filter_map ls))

  -- If `METADATA_REGEX` matches every line at its start and matches no `<`, the stripped lines of a
  -- quotation have as many `<` as its text.
  pub total-chat_lines_stripped :
      (q : Quotation) → total b'<' (chat_lines_stripped find_metadata q) ≡ count b'<' q.text
  unfolding chat_lines_stripped strip_quotation_lines
  total-chat_lines_stripped q =
      total-trimmed_lines
        (filter_map (strip_chat_metadata find_metadata) (trimmed_lines (lines q.text)))
      ∙ total-filter_map (trimmed_lines (lines q.text))
      ∙ total-trimmed_lines (lines q.text)
      ∙ total-lines b'<' q.text refl refl
