-- ===== src/Text.antt =====
-- Rust's `str`: a sequence of Unicode scalar values, measured and indexed by the bytes of its UTF-8
-- form, with the methods of the standard library that the bot calls.
use irc_bot_rs.Base.{
  ℕ, zero, suc, ◌+◌, ◌-◌, ◌/◌, ◌%◌, ◌≤◌, ◌≡◌, refl, ap, ◌↔◌, ◌⊎◌, inl, inr, Bool, true, false, not,
  ◌&&◌, ◌||◌, Option, none, some, List, [], ◌∷◌, ◌++◌, map, arith, ltb, leb, ◌==◌, if◌then◌else◌,
  length, drop, is_nil, any, ◌>>=?◌,
}
use mathlib.Core.Option
use Prim.Native.Char.{code}
use Prim.Native.String.{String}
pub mod Laws
pub mod Slices
pub mod Counts

abbrev pub Text : Type 0
Text = List ℕ

-- The scalar values of a literal.
abbrev pub codes : String → Text
codes String.[] = []
codes (String.◌∷◌ c s) = code c ∷ codes s

-- The bytes of one scalar value in UTF-8.
abbrev pub char_len : ℕ → ℕ
char_len c = if ltb c 0x80 then 1 else if ltb c 0x800 then 2 else if ltb c 0x10000 then 3 else 4

-- `str::len`
abbrev pub len : Text → ℕ
len [] = 0
len (c ∷ s) = char_len c + len s

abbrev pub text_eq : Text → Text → Bool
text_eq [] [] = true
text_eq [] (d ∷ t) = false
text_eq (c ∷ s) [] = false
text_eq (c ∷ s) (d ∷ t) = (c == d) && text_eq s t

-- `char::is_whitespace`: the property White_Space of Unicode.
unfoldable pub is_whitespace : ℕ → Bool
is_whitespace c =
    (leb 0x9 c && leb c 0xD)
    || (c == 0x20)
    || (c == 0x85)
    || (c == 0xA0)
    || (c == 0x1680)
    || (leb 0x2000 c && leb c 0x200A)
    || (c == 0x2028)
    || (c == 0x2029)
    || (c == 0x202F)
    || (c == 0x205F)
    || (c == 0x3000)

-- `trim_start_matches` and `trim_end_matches` with a predicate on characters
unfoldable pub trim_start_by : (ℕ → Bool) → Text → Text
trim_start_by p [] = []
trim_start_by p (c ∷ s) = let rest = trim_start_by p s in if p c then rest else c ∷ s

unfoldable pub trim_end_by : (ℕ → Bool) → Text → Text
trim_end_by p [] = []
trim_end_by p (c ∷ s) = let r = trim_end_by p s in if p c && is_nil r then [] else c ∷ r

unfoldable pub trim : Text → Text
unfolding trim_start_by trim_end_by is_whitespace
trim s = trim_end_by is_whitespace (trim_start_by is_whitespace s)

abbrev pub starts_with : Text → Text → Bool
starts_with s [] = true
starts_with [] (d ∷ p) = false
starts_with (c ∷ s) (d ∷ p) = (c == d) && starts_with s p

-- `contains` with a text as its pattern
unfoldable pub contains : Text → Text → Bool
contains [] p = starts_with [] p
contains (c ∷ s) p = starts_with (c ∷ s) p || contains s p

-- `trim_start_matches` with a text as its pattern, on fuel. An empty pattern removes nothing.
unfoldable pub strip_all : ℕ → Text → Text → Text
strip_all zero s p = s
strip_all (suc f) s p =
    let rest = strip_all f (drop (length p) s) p in
    if not (is_nil p) && starts_with s p then rest else s

-- As many rounds as there are characters are enough (`Text.Laws.strip_all_done`).
unfoldable pub trim_start_text : Text → Text → Text
unfolding strip_all
trim_start_text s p = strip_all (length s) s p

-- `find` with a predicate: the byte index of the first such character
unfoldable pub find_from : ℕ → (ℕ → Bool) → Text → Option ℕ
find_from i p [] = none
find_from i p (c ∷ s) = let rest = find_from (i + char_len c) p s in if p c then some i else rest

-- `splitn(2, p)`: up to the first match and after it, or the whole text
unfoldable pub splitn_2 : (ℕ → Bool) → Text → Text × Option Text
splitn_2 p [] = ([], none)
splitn_2 p (c ∷ s) = let (a, b) = splitn_2 p s in if p c then ([], some s) else (c ∷ a, b)

-- `rsplitn(2, p)`: after the last match and up to it, or the whole text
rsplit_step : (ℕ → Bool) → ℕ → Text × Option Text → Text × Option Text
rsplit_step p c (a, some b) = (a, some (c ∷ b))
rsplit_step p c (a, none) = if p c then (a, some []) else (c ∷ a, none)

unfoldable pub rsplitn_2 : (ℕ → Bool) → Text → Text × Option Text
unfolding rsplit_step
rsplitn_2 p [] = ([], none)
rsplitn_2 p (c ∷ s) = rsplit_step p c (rsplitn_2 p s)

unfoldable pub ends_with : Text → Text → Bool
ends_with [] p = text_eq [] p
ends_with (c ∷ s) p = text_eq (c ∷ s) p || ends_with s p

-- The texts, one after another
abbrev pub concat : List Text → Text
concat [] = []
concat (t ∷ ts) = t ++ concat ts

-- `[Text]::join`
unfoldable pub join : Text → List Text → Text
join sep [] = []
join sep (s ∷ []) = s
join sep (s ∷ t ∷ r) = s ++ (sep ++ join sep (t ∷ r))

-- The two halves of a text at a byte index; `none` where that is no boundary of characters.
unfoldable pub drop_bytes : ℕ → Text → Option Text
drop_bytes n [] = if n == 0 then some [] else none
drop_bytes n (c ∷ s) =
    let rest = drop_bytes (n - char_len c) s in
    if n == 0 then some (c ∷ s) else if leb (char_len c) n then rest else none

unfoldable pub take_bytes : ℕ → Text → Option Text
take_bytes n [] = if n == 0 then some [] else none
take_bytes n (c ∷ s) =
    let rest = take_bytes (n - char_len c) s in
    if n == 0 then some [] else if leb (char_len c) n then Option.map (λ t. c ∷ t) rest else none

-- `s[a..b]`; `none` is a panic
unfoldable pub slice : Text → ℕ → ℕ → Option Text
unfolding drop_bytes take_bytes
slice s a b = if leb a b then drop_bytes a s >>=? take_bytes (b - a) else none

-- The byte indices of `match_indices` with a predicate.
unfoldable pub match_indices : (ℕ → Bool) → ℕ → Text → List ℕ
match_indices p i [] = []
match_indices p i (c ∷ s) =
    let rest = match_indices p (i + char_len c) s in if p c then i ∷ rest else rest

-- `lines`: the ends of lines are dropped, and a carriage return before one, or at the end.
cons_line : ℕ → List Text → List Text
cons_line c [] = (c ∷ []) ∷ []
cons_line c (l ∷ ls) = (c ∷ l) ∷ ls

split_lines : Text → List Text
unfolding cons_line
split_lines [] = []
split_lines (c ∷ s) = let rest = split_lines s in if c == 0xA then [] ∷ rest else cons_line c rest

strip_cr : Text → Text
strip_cr [] = []
strip_cr (c ∷ []) = if c == 0xD then [] else c ∷ []
strip_cr (c ∷ d ∷ s) = c ∷ strip_cr (d ∷ s)

unfoldable pub lines : Text → List Text
unfolding split_lines strip_cr
lines s = map strip_cr (split_lines s)

-- `Display` of a `usize`, which has no more than 20 digits
abbrev decimal_digits : ℕ → ℕ → Text → Text
decimal_digits zero n digits = digits
decimal_digits (suc f) n digits =
    let more = decimal_digits f (n / 10) ((b'0' + n % 10) ∷ digits) in
    if ltb n 10 then (b'0' + n) ∷ digits else more

abbrev pub decimal : ℕ → Text
decimal n = decimal_digits 20 n []
