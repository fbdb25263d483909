-- ===== src/Quote/Query.antt =====
-- Which quotations match a query.
use irc_bot_rs.Base.{
  ℕ, ◌≡◌, refl, sym, ap, ◌∙◌, inl, inr, Bool, true, false, not, ◌&&◌, ◌||◌, Bool-cases, Option,
  List, [], ◌∷◌, if◌then◌else◌, is_nil, any, all, length, replicate,
}
use irc_bot_rs.Text.{Text, text_eq, contains}
use irc_bot_rs.Util.Regex.{RegexBuilder, RegexCrate}
use irc_bot_rs.Quote.{
  Quotation, QuoteParams, haystacks, check_search_terms, all_true, search,
  quotation_matches_query_params,
}

module _ {A : Type 0} where
  -- Two passes over the terms are one.
  check-check :
      (p q : A → Bool) (ts : List A) (ms : List Bool)
      → check_search_terms q ts (check_search_terms p ts ms)
        ≡ check_search_terms (λ t. p t || q t) ts ms
  check-check p q [] ms = refl
  check-check p q (t ∷ ts) [] = refl
  check-check p q (t ∷ ts) (m ∷ ms) =
      rw (check-check p q ts ms)
        (ap (λ b. b ∷ check_search_terms (λ t. p t || q t) ts ms) (or3 m (p t) (q t)))
    where
      or3 : (a b c : Bool) → (a || b) || c ≡ a || (b || c)
      or3 true b c = refl
      or3 false b c = refl

  check_none : (ts : List A) (ms : List Bool) → check_search_terms (λ t. false) ts ms ≡ ms
  check_none [] ms = refl
  check_none (t ∷ ts) [] = refl
  check_none (t ∷ ts) (true ∷ ms) = ap (λ x. true ∷ x) (check_none ts ms)
  check_none (t ∷ ts) (false ∷ ms) = ap (λ x. false ∷ x) (check_none ts ms)

  -- What is matched stays so.
  check_more :
      (p : A → Bool) (ts : List A) (ms : List Bool)
      → all_true ms ≡ true
      → all_true (check_search_terms p ts ms) ≡ true
  check_more p [] ms h = h
  check_more p (t ∷ ts) [] h = refl
  check_more p (t ∷ ts) (true ∷ ms) h = check_more p ts ms h
  check_more p (t ∷ ts) (false ∷ ms) h = cc

  check_start :
      (p : A → Bool) (ts : List A)
      → all_true (check_search_terms p ts (replicate (length ts) false)) ≡ all p ts
  check_start p [] = refl
  check_start p (t ∷ ts) = ap (λ b. p t && b) (check_start p ts)

if_true : (b : Bool) → (if b then true else false) ≡ b
if_true true = refl
if_true false = refl

both : (a b : Bool) → a && b ≡ true → (a ≡ true) × (b ≡ true)
both true b h = (refl, h)
both false b h = cc

module _ (crate : RegexCrate) (params : QuoteParams) where
  search-all :
      (hs : List Text) (rs ls : List Bool)
      → search crate params hs rs ls
        ≡ not (is_nil hs)
          && (all_true
                (check_search_terms (λ r. any (λ h. crate.is_match r h) hs) params.regexes rs)
              && all_true (check_search_terms (λ l. any (λ h. contains h l) hs) params.literals ls))
  unfolding search
  search-all [] rs ls = refl
  search-all (h ∷ []) rs ls =
      let rs' = check_search_terms (λ r. crate.is_match r h) params.regexes rs in
      let ls' = check_search_terms (λ l. contains h l) params.literals ls in
      let er =
        sym (check_none params.regexes rs')
        ∙ check-check (λ r. crate.is_match r h) (λ r. false) params.regexes rs in
      let el =
        sym (check_none params.literals ls')
        ∙ check-check (λ l. contains h l) (λ l. false) params.literals ls in
      if_true (all_true rs' && all_true ls')
      ∙ ap (λ x. all_true x && all_true ls') er
      ∙ ap
          (λ x.
            all_true (check_search_terms (λ r. crate.is_match r h || false) params.regexes rs)
            && all_true x)
          el
  search-all (h ∷ k ∷ hs) rs ls =
      let rs' = check_search_terms (λ r. crate.is_match r h) params.regexes rs in
      let ls' = check_search_terms (λ l. contains h l) params.literals ls in
      let qr = λ (r : RegexBuilder). any (λ h. crate.is_match r h) (k ∷ hs) in
      let ql = λ (l : Text). any (λ h. contains h l) (k ∷ hs) in
      let er = check-check (λ r. crate.is_match r h) qr params.regexes rs in
      let el = check-check (λ l. contains h l) ql params.literals ls in
      let all_r = ap (λ x. all_true x) er in
      let all_l = ap (λ x. all_true x) el in
      elim (Bool-cases (all_true rs' && all_true ls')) [
        | inl y ↦
            let (yr, yl) = both (all_true rs') (all_true ls') y in
            rw
              (
                y,
                sym all_r ∙ check_more qr params.regexes rs' yr,
                sym all_l ∙ check_more ql params.literals ls' yl,
              )
              refl
        | inr n ↦ rw n (search-all (k ∷ hs) rs' ls' ∙ rw (all_r, all_l) refl)
      ]

-- A quotation matches a query if and only if it has all the tags, there is something to search, that
-- is a line or a tag, and each search term is found somewhere in it.
pub quotation_matches_query_params-all :
    (crate : RegexCrate) (params : QuoteParams) (find_metadata : Text → Option ℕ) (q : Quotation)
    → quotation_matches_query_params crate params find_metadata q
      ≡ all (λ wanted. any (λ found. text_eq found wanted) q.tags) params.tags
        && (not (is_nil (haystacks find_metadata q))
            && (all (λ r. any (λ h. crate.is_match r h) (haystacks find_metadata q)) params.regexes
                && all (λ l. any (λ h. contains h l) (haystacks find_metadata q)) params.literals))
unfolding quotation_matches_query_params
quotation_matches_query_params-all crate params find_metadata q =
    let hs = haystacks find_metadata q in
    let rs = replicate (length params.regexes) false in
    let ls = replicate (length params.literals) false in
    let tagged = all (λ wanted. any (λ found. text_eq found wanted) q.tags) params.tags in
    let er = check_start (λ r. any (λ h. crate.is_match r h) hs) params.regexes in
    let el = check_start (λ l. any (λ h. contains h l) hs) params.literals in
    ap (λ b. tagged && b) (search-all crate params hs rs ls)
    ∙ ap
        (λ b.
          tagged
          && (not (is_nil hs)
              && (b
                  && all_true
                      (check_search_terms (λ l. any (λ h. contains h l) hs) params.literals ls))))
        er
    ∙ ap
        (λ b.
          tagged
          && (not (is_nil hs) && (all (λ r. any (λ h. crate.is_match r h) hs) params.regexes && b)))
        el
