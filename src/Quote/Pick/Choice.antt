-- ===== src/Quote/Pick/Choice.antt =====
-- Which quotation is chosen.
use irc_bot_rs.Base.{
  ℕ, ◌<◌, ◌≤◌, ◌≡◌, refl, ap, ◌∙◌, subst, inl, inr, ◌↔◌, Bool, true, false, Bool-cases, Option,
  Option-cases, none, some, List, [], ◌∷◌, ◌++◌, Occurs, nothing_occurs, arith, ltb,
}
use irc_bot_rs.Text.{Text}
use irc_bot_rs.Core.Err.{done}
use irc_bot_rs.Core.Handler.{HandlerContext, got, lift, lift-got, >>=-eq-got}
use irc_bot_rs.Core.Irc.{MsgDest}
use irc_bot_rs.Core.Reply.{privmsg_content_max_len}
use irc_bot_rs.Quote.{
  Quotation, QuoteParams, QuotationDatabase, quotation_matches_query_params, check_file_permissions,
}
use irc_bot_rs.Quote.Pick.{
  QuotationChoice, text, url, QuoteEnv, permitted, eschewed, try_quotation, first_choice, chosen,
  candidates, pick_quotation,
}
use irc_bot_rs.Quote.Render.{rendered_quotation_byte_len}

-- The order that is drawn has the elements of the list.
abbrev pub IsFair : QuoteEnv → Type 0
IsFair q_env = (qs : List Quotation) (q : Quotation) → Occurs q qs ↔ Occurs q (q_env.rand_iter qs)

module _ (q_env : QuoteEnv) (params : QuoteParams) (nicks : List Text) (permissions : List Bool)
    (max_len : ℕ) where
  -- The quotation may be shown: it matches the query, and its file may be seen.
  abbrev pub IsVisible : Quotation → Type 0
  IsVisible q =
      (quotation_matches_query_params q_env.env.regex params q_env.find_metadata q ≡ true)
      × (permitted q_env params nicks permissions max_len q ≡ true)

  abbrev pub Fits : Quotation → Type 0
  Fits q = rendered_quotation_byte_len q_env.find_metadata q ≤ max_len

  -- A quotation is shown as its text if it fits and its tactic is not to eschew a nick in it, and as its
  -- URL if it does not fit.
  abbrev pub IsShownAs : Quotation → QuotationChoice → Type 0
  IsShownAs q (text q') =
      (q' ≡ q) × Fits q × (eschewed q_env params nicks permissions max_len q ≡ false)
  IsShownAs q (url id u) =
      (id ≡ q.id) × (max_len < rendered_quotation_byte_len q_env.find_metadata q) × (q.url ≡ some u)

  try_quotation-some :
      (q : Quotation) (c : QuotationChoice)
      → (try_quotation q_env params nicks permissions max_len q).0 ≡ some c
      → IsVisible q × IsShownAs q c
  unfolding try_quotation
  try_quotation-some q c h =
      elim (Bool-cases
        (quotation_matches_query_params q_env.env.regex params q_env.find_metadata q)) [
          | inr n ↦ cc (rw n at h)
          | inl matching ↦ elim (Bool-cases (permitted q_env params nicks permissions max_len q)) [
            | inr n ↦ cc (rw (matching, n) at h)
            | inl visible ↦
                elim (Bool-cases
                  (ltb max_len (rendered_quotation_byte_len q_env.find_metadata q))) [
                    | inl long ↦ elim (Option-cases q.url) [
                      | inl n ↦ cc (rw (matching, visible, long, n) at h)
                      | inr (u, e) ↦
                          let same : url q.id u ≡ c = cc (rw (matching, visible, long, e) at h) in
                          subst (λ x. IsVisible q × IsShownAs q x) same
                            ((matching, visible), (refl, ground arith, e))
                    ]
                    | inr short ↦
                        elim (Bool-cases (eschewed q_env params nicks permissions max_len q)) [
                          | inl y ↦ cc (rw (matching, visible, short, y) at h)
                          | inr n ↦
                              let same : text q ≡ c = cc (rw (matching, visible, short, n) at h) in
                              subst (λ x. IsVisible q × IsShownAs q x) same
                                ((matching, visible), (refl, ground arith, n))
                        ]
                  ]
          ]
        ]

  -- A quotation that can be shown is.
  try_quotation_shown :
      (q : Quotation) (c : QuotationChoice)
      → IsVisible q
      → IsShownAs q c
      → try_quotation q_env params nicks permissions max_len q ≡ (some c, false)
  unfolding try_quotation
  try_quotation_shown q (text q') (m, v) (e, l, n) =
      let short : ltb max_len (rendered_quotation_byte_len q_env.find_metadata q) ≡ false =
        ground arith in
      rw (m, v, short, n, e) refl
  try_quotation_shown q (url id u) (m, v) (e, l, f) =
      let long : ltb max_len (rendered_quotation_byte_len q_env.find_metadata q) ≡ true =
        ground arith in
      rw (m, v, long, f, e) refl

  first_choice-some :
      (qs : List Quotation) (rejected : Bool) (c : QuotationChoice)
      → (first_choice q_env params nicks permissions max_len qs rejected).0 ≡ some c
      → (q : Quotation) × Occurs q qs × IsVisible q × IsShownAs q c
  unfolding first_choice
  first_choice-some [] rejected c h = cc
  first_choice-some (q ∷ qs) rejected c h =
      elim (Option-cases (try_quotation q_env params nicks permissions max_len q).0) [
        | inl n ↦
            let (q', (before, after, e), v, s) = first_choice-some qs _ c (rw n at h) in
            (q', (q ∷ before, after, ap (λ x. q ∷ x) e), v, s)
        | inr (d, s) ↦
            let same : d ≡ c = cc (rw s at h) in
            let (v, shown) = try_quotation-some q c (s ∙ ap (λ x. some x) same) in
            (q, ([], qs, refl), v, shown)
      ]

  first_choice_shown :
      (qs before after : List Quotation) (rejected : Bool) (q : Quotation) (c : QuotationChoice)
      → qs ≡ before ++ q ∷ after
      → IsVisible q
      → IsShownAs q c
      → (d : QuotationChoice) × ((first_choice q_env params nicks permissions max_len qs rejected).0
          ≡ some d)
  unfolding first_choice
  first_choice_shown [] before after rejected q c e v s = absurd (nothing_occurs q before after e)
  first_choice_shown (p ∷ qs) [] after rejected q c e v s =
      let same : p ≡ q = cc in (c, rw (same, try_quotation_shown q c v s) refl)
  first_choice_shown (p ∷ qs) (b ∷ before) after rejected q c e v s =
      elim (Option-cases (try_quotation q_env params nicks permissions max_len p).0) [
        | inr (d, t) ↦ (d, rw t refl)
        | inl n ↦ rw n (first_choice_shown qs before after _ q c (cc) v s)
      ]

chosen-got :
    (o : Option QuotationChoice × Bool) (c : QuotationChoice) → chosen o ≡ got c → o.0 ≡ some c
chosen-got (none, rejected) c h = cc
chosen-got (some d, rejected) c h = cc

chosen-some :
    (o : Option QuotationChoice × Bool) (c : QuotationChoice) → o.0 ≡ some c → chosen o ≡ got c
chosen-some (none, rejected) c h = cc
chosen-some (some d, rejected) c h = ap (λ x. got x) (cc)

module _ (q_env : QuoteEnv) (ctx : HandlerContext) (params : QuoteParams) (reply_dest : MsgDest)
    (qdb : QuotationDatabase) (nicks : List Text) where
  abbrev permissions : List Bool
  permissions = check_file_permissions q_env.env.regex qdb.files reply_dest.target

  -- A quotation that was asked for, that may be shown, and that is shown as the choice says.
  abbrev pub IsPicked : QuotationChoice → Type 0
  IsPicked c =
      (max_len : ℕ) × (qs : List Quotation) × (q : Quotation) × (privmsg_content_max_len q_env.env
          ctx.state reply_dest
        ≡ done max_len)
      × (candidates q_env params qdb ≡ got qs)
      × Occurs q qs
      × IsVisible q_env params nicks permissions max_len q
      × IsShownAs q_env params nicks permissions max_len q c

  -- If `rand_iter` yields the elements of its list, a quotation that is picked is one of those asked
  -- for, matches the query, and is in a file that may be seen in the channel; it is shown as its text
  -- only if that is no longer than a message may be there, and does not have the nick of a user in the
  -- channel where such quotations are to be eschewed, and as its URL only if it has one and its text is
  -- longer than that.
  pub pick_quotation-IsShownAs :
      (c : QuotationChoice)
      → IsFair q_env
      → pick_quotation q_env ctx params reply_dest qdb nicks ≡ got c
      → IsPicked c
  unfolding pick_quotation
  pick_quotation-IsShownAs c fair h =
      let (max_len, e, h') =
        >>=-eq-got (lift (privmsg_content_max_len q_env.env ctx.state reply_dest)) _ h in
      let (qs, f, h'') = >>=-eq-got (candidates q_env params qdb) _ h' in
      let o = first_choice q_env params nicks permissions max_len (q_env.rand_iter qs) false in
      let (q, occurs, v, s) =
        first_choice-some q_env params nicks permissions max_len (q_env.rand_iter qs) false c
          (chosen-got o c h'') in
      (max_len, qs, q, lift-got _ max_len e, f, (fair qs q).1 occurs, v, s)

  -- If `rand_iter` yields the elements of its list, and there is a quotation among those asked for that
  -- can be shown, a quotation is picked.
  pub pick_quotation_shown :
      (max_len : ℕ) (qs : List Quotation) (q : Quotation) (c : QuotationChoice)
      → IsFair q_env
      → privmsg_content_max_len q_env.env ctx.state reply_dest ≡ done max_len
      → candidates q_env params qdb ≡ got qs
      → Occurs q qs
      → IsVisible q_env params nicks permissions max_len q
      → IsShownAs q_env params nicks permissions max_len q c
      → (d : QuotationChoice) × (pick_quotation q_env ctx params reply_dest qdb nicks ≡ got d)
  unfolding pick_quotation
  pick_quotation_shown max_len qs q c fair e f occurs v s =
      let (before, after, g) = (fair qs q).0 occurs in
      let (d, h) =
        first_choice_shown q_env params nicks permissions max_len (q_env.rand_iter qs) before after
          false q c g v s in
      (
        d,
        rw (e, f)
            (chosen-some
              (first_choice q_env params nicks permissions max_len (q_env.rand_iter qs) false) d h),
      )
