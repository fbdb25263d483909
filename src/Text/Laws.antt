-- ===== src/Text/Laws.antt =====
-- Laws of the methods of `str`: equality, lengths, trimming and splitting.
use irc_bot_rs.Base.{
  ℕ, zero, suc, ◌+◌, ◌≤◌, ◌<◌, ◌≡◌, ◌≢◌, refl, sym, ap, ◌∙◌, ◌↔◌, inl, inr, Bool, true, false,
  Bool-cases, Option, none, some, [], ◌∷◌, ◌++◌, arith, if◌then◌else◌, length, length-append,
  length-drop, drop-append, drop, All,
}
use irc_bot_rs.Text.{
  Text, char_len, len, text_eq, starts_with, strip_all, trim_start_text, find_from, splitn_2,
  rsplitn_2, rsplit_step,
}

-- No character of the text is matched.
abbrev pub Lacks : (ℕ → Bool) → Text → Type 0
Lacks p = All (λ c. p c ≡ false)

pub text_eq_iff : (s t : Text) → (text_eq s t ≡ true) ↔ (s ≡ t)
text_eq_iff [] [] = (λ _. refl, λ _. refl)
text_eq_iff [] (d ∷ t) = (λ e. cc, λ e. cc)
text_eq_iff (c ∷ s) [] = (λ e. cc, λ e. cc)
text_eq_iff (c ∷ s) (d ∷ t) =
    (λ e. ground (arith, text_eq_iff s t), λ e. ground (arith, text_eq_iff s t))

pub text_eq_refl : (s : Text) → text_eq s s ≡ true
text_eq_refl s = (text_eq_iff s s).1 refl

pub len-append : (s t : Text) → len (s ++ t) ≡ len s + len t
len-append [] t = omega arith
len-append (c ∷ s) t = omega (arith, len-append s t)

pub char_len_pos : (c : ℕ) → 0 < char_len c
char_len_pos c = ground arith

pub length-le-len : (s : Text) → length s ≤ len s
length-le-len [] = omega arith
length-le-len (c ∷ s) = omega (arith, length-le-len s, char_len_pos c)

-- Splitting

abbrev pub Rebuilds : (ℕ → Bool) → Text → Text × Option Text → Type 0
Rebuilds p s (a, some b) = (d : ℕ) × (p d ≡ true) × (s ≡ b ++ d ∷ a)
Rebuilds p s (a, none) = s ≡ a

abbrev pub Parts : (ℕ → Bool) → Text → Text × Option Text → Type 0
Parts p s (a, some b) = (d : ℕ) × (p d ≡ true) × (s ≡ a ++ d ∷ b)
Parts p s (a, none) = (s ≡ a) × Lacks p s

pub splitn_2-Lacks : (p : ℕ → Bool) (s : Text) → Lacks p s → splitn_2 p s ≡ (s, none)
unfolding splitn_2
splitn_2-Lacks p [] h = refl
splitn_2-Lacks p (c ∷ s) h = ground (arith, splitn_2-Lacks p s h.1)

pub splitn_2-append :
    (p : ℕ → Bool) (s t : Text) (c : ℕ)
    → Lacks p s
    → p c ≡ true
    → splitn_2 p (s ++ c ∷ t) ≡ (s, some t)
unfolding splitn_2
splitn_2-append p [] t c h e = ground arith
splitn_2-append p (d ∷ s) t c h e = ground (arith, splitn_2-append p s t c h.1 e)

pub splitn_2_first : (p : ℕ → Bool) (s : Text) → Lacks p (splitn_2 p s).0
unfolding splitn_2
splitn_2_first p [] = tt
splitn_2_first p (c ∷ s) = elim (Bool-cases (p c)) [
  | inl e ↦ rw e tt
  | inr e ↦ rw e (e, splitn_2_first p s)
]

pub rsplitn_2-Lacks : (p : ℕ → Bool) (s : Text) → Lacks p s → rsplitn_2 p s ≡ (s, none)
unfolding rsplitn_2
rsplitn_2-Lacks p [] h = refl
rsplitn_2-Lacks p (c ∷ s) h = ground (arith, rsplitn_2-Lacks p s h.1)

pub rsplitn_2-append :
    (p : ℕ → Bool) (s t : Text) (c : ℕ)
    → Lacks p t
    → p c ≡ true
    → rsplitn_2 p (s ++ c ∷ t) ≡ (t, some s)
unfolding rsplitn_2
rsplitn_2-append p [] t c h e = ground (arith, rsplitn_2-Lacks p t h)
rsplitn_2-append p (d ∷ s) t c h e = ground (arith, rsplitn_2-append p s t c h e)

rsplit_step_first :
    (p : ℕ → Bool) (c : ℕ) (r : Text × Option Text) → Lacks p r.0 → Lacks p (rsplit_step p c r).0
unfolding rsplit_step
rsplit_step_first p c (a, some b) h = h
rsplit_step_first p c (a, none) h = elim (Bool-cases (p c)) [ inl e ↦ rw e h | inr e ↦ rw e (e, h) ]

pub rsplitn_2_first : (p : ℕ → Bool) (s : Text) → Lacks p (rsplitn_2 p s).0
unfolding rsplitn_2
rsplitn_2_first p [] = tt
rsplitn_2_first p (c ∷ s) = rsplit_step_first p c (rsplitn_2 p s) (rsplitn_2_first p s)

rsplit_step_rebuild :
    (p : ℕ → Bool) (c : ℕ) (s : Text) (r : Text × Option Text)
    → Rebuilds p s r
    → Rebuilds p (c ∷ s) (rsplit_step p c r)
unfolding rsplit_step
rsplit_step_rebuild p c s (a, some b) (d, m, e) = (d, m, ap (λ t. c ∷ t) e)
rsplit_step_rebuild p c s (a, none) e = elim (Bool-cases (p c)) [
  | inl m ↦ rw m (c, m, ap (λ t. c ∷ t) e)
  | inr m ↦ rw m (ap (λ t. c ∷ t) e)
]

-- The pieces and the character between them spell the text.
pub rsplitn_2_rebuild : (p : ℕ → Bool) (s : Text) → Rebuilds p s (rsplitn_2 p s)
unfolding rsplitn_2
rsplitn_2_rebuild p [] = refl
rsplitn_2_rebuild p (c ∷ s) = rsplit_step_rebuild p c s (rsplitn_2 p s) (rsplitn_2_rebuild p s)

split_cons :
    (p : ℕ → Bool) (c : ℕ) (s a : Text) (o : Option Text)
    → Parts p s (a, o)
    → p c ≡ false
    → Parts p (c ∷ s) (c ∷ a, o)
split_cons p c s a (some b) (d, m, e) h = (d, m, ap (λ t. c ∷ t) e)
split_cons p c s a none (e, l) h = (ap (λ t. c ∷ t) e, (h, l))

pub splitn_2_rebuild : (p : ℕ → Bool) (s : Text) → Parts p s (splitn_2 p s)
unfolding splitn_2
splitn_2_rebuild p [] = (refl, tt)
splitn_2_rebuild p (c ∷ s) = elim (Bool-cases (p c)) [
  | inl m ↦ rw m (c, m, refl)
  | inr m ↦ rw m (split_cons p c s _ _ (splitn_2_rebuild p s) m)
]

-- Prefixes

pub starts_with-append : (p t : Text) → starts_with (p ++ t) p ≡ true
starts_with-append [] [] = refl
starts_with-append [] (c ∷ t) = refl
starts_with-append (d ∷ p) t = ground (arith, starts_with-append p t)

pub starts_with_split : (s p : Text) → starts_with s p ≡ true → s ≡ p ++ drop (length p) s
starts_with_split s [] h = refl
starts_with_split [] (d ∷ p) h = cc
starts_with_split (c ∷ s) (d ∷ p) h = ground (arith, starts_with_split s p)

pub find_from-Lacks :
    (i : ℕ) (p : ℕ → Bool) (s t : Text)
    → Lacks p s
    → find_from i p (s ++ t) ≡ find_from (i + len s) p t
unfolding find_from
find_from-Lacks i p [] t h = ap (λ k. find_from k p t) (omega arith)
find_from-Lacks i p (c ∷ s) t h =
    rw (h.0) (find_from-Lacks (i + char_len c) p s t h.1 ∙ ap (λ k. find_from k p t) (omega arith))

pub find_from-ge : (i : ℕ) (p : ℕ → Bool) (s : Text) (j : ℕ) → find_from i p s ≡ some j → i ≤ j
unfolding find_from
find_from-ge i p [] j h = cc
find_from-ge i p (c ∷ s) j h = ground (arith, find_from-ge (i + char_len c) p s j)

-- Removing copies of a prefix

pub strip_all_stop : (f : ℕ) (s p : Text) → starts_with s p ≡ false → strip_all f s p ≡ s
unfolding strip_all
strip_all_stop zero s p h = refl
strip_all_stop (suc f) s p h = ground arith

strip_all_short : (f : ℕ) (d : ℕ) (p : Text) → strip_all f [] (d ∷ p) ≡ []
strip_all_short f d p = strip_all_stop f [] (d ∷ p) refl

strip_all_nil : (f : ℕ) (s : Text) → strip_all f s [] ≡ s
unfolding strip_all
strip_all_nil zero s = refl
strip_all_nil (suc f) s = refl

strip_all_fuel :
    (f g : ℕ) (s p : Text) → length s ≤ f → length s ≤ g → strip_all f s p ≡ strip_all g s p
unfolding strip_all
strip_all_fuel f g s [] hf hg = strip_all_nil f s ∙ sym (strip_all_nil g s)
strip_all_fuel zero g [] (d ∷ p) hf hg = sym (strip_all_short g d p)
strip_all_fuel zero g (c ∷ s) (d ∷ p) hf hg = absurd (omega arith)
strip_all_fuel (suc f) zero [] (d ∷ p) hf hg = strip_all_short (suc f) d p
strip_all_fuel (suc f) zero (c ∷ s) (d ∷ p) hf hg = absurd (omega arith)
strip_all_fuel (suc f) (suc g) s (d ∷ p) hf hg =
    ap (λ r. if starts_with s (d ∷ p) then r else s)
      (strip_all_fuel f g (drop (length (d ∷ p)) s) (d ∷ p)
        (omega (arith, length-drop (length (d ∷ p)) s))
        (omega (arith, length-drop (length (d ∷ p)) s)))

-- One copy of the pattern in front makes no difference.
pub trim_start_text-append : (s p : Text) → trim_start_text (p ++ s) p ≡ trim_start_text s p
unfolding trim_start_text
trim_start_text-append s [] = refl
trim_start_text-append s (d ∷ p) = ground (
  arith,
  starts_with-append p s,
  drop-append p s,
  length-append p s,
  strip_all_fuel (length (p ++ s)) (length s) s (d ∷ p),
)

pub trim_start_text_nil : (s : Text) → trim_start_text s [] ≡ s
unfolding trim_start_text
trim_start_text_nil s = strip_all_nil (length s) s

pub trim_start_text_stop : (s p : Text) → starts_with s p ≡ false → trim_start_text s p ≡ s
unfolding trim_start_text
trim_start_text_stop s p h = strip_all_stop (length s) s p h

strip_all_done :
    (f : ℕ) (s p : Text) → p ≢ [] → length s ≤ f → starts_with (strip_all f s p) p ≡ false
unfolding strip_all
strip_all_done f s [] h l = absurd (h refl)
strip_all_done zero [] (d ∷ p) h l = refl
strip_all_done zero (c ∷ s) (d ∷ p) h l = absurd (omega arith)
strip_all_done (suc f) s (d ∷ p) h l =
    ground
      (arith, strip_all_done f (drop (length (d ∷ p)) s) (d ∷ p) h, length-drop (length (d ∷ p)) s)

-- The fuel is enough: no copy of the pattern is left in front.
pub trim_start_text_done : (s p : Text) → p ≢ [] → starts_with (trim_start_text s p) p ≡ false
unfolding trim_start_text
trim_start_text_done s p h = strip_all_done (length s) s p h (omega arith)
