-- ===== src/Core/Reply/Lines.antt =====
-- Which messages a reply is made of.
use irc_bot_rs.Base.{
  ℕ, ◌≤◌, ◌<◌, ◌≡◌, refl, sym, ap, ◌∙◌, ◌⊎◌, Option, List, [], ◌∷◌, ◌++◌, map, append-nil,
  if◌then◌else◌, is_nil, All,
}
use irc_bot_rs.Text.{Text, len, lines}
use irc_bot_rs.Core.Err.{done, ◌>>=◌, >>=-eq-done, done-injective}
use irc_bot_rs.Core.Env.{Env}
use irc_bot_rs.Core.Irc.{Command, Message, message, MsgDest}
use irc_bot_rs.Core.Reaction.{LibReaction, flatten, flatten_all, flatten_option}
use irc_bot_rs.Core.Reply.{
  gather, from_list, privmsg_to, privmsg_content_max_len, wrap_each, compose_msg,
}
use irc_bot_rs.Core.State.{State}
use irc_bot_rs.Core.Wrap.{wrap_msg}
use irc_bot_rs.Core.Wrap.Fits.{Fits, wrap_msg-Fits}
use irc_bot_rs.Core.Wrap.Pieces.{Pieces, wrap_msg-Pieces}

-- The messages of several reactions, one after the other.
abbrev pub concat_flatten : List (LibReaction Message) → List Message
concat_flatten [] = []
concat_flatten (r ∷ rs) = flatten r ++ concat_flatten rs

flatten_all-from_list :
    (rs : List (LibReaction Message)) → flatten_all (from_list rs) ≡ concat_flatten rs
flatten_all-from_list [] = refl
flatten_all-from_list (r ∷ rs) = ap (λ x. flatten r ++ x) (flatten_all-from_list rs)

-- `gather` keeps the messages and their order.
pub flatten-gather :
    (rs : List (LibReaction Message)) → flatten_option (gather rs) ≡ concat_flatten rs
flatten-gather [] = refl
flatten-gather (r ∷ []) = sym (append-nil (flatten r))
flatten-gather (r ∷ r' ∷ rs) = flatten_all-from_list (r ∷ r' ∷ rs)

abbrev pub privmsgs : Text → List Text → List Message
privmsgs target = map λ line. message (Command.privmsg target line)

concat-privmsg_to :
    (target : Text) (ls : List Text)
    → concat_flatten (map (privmsg_to target) ls) ≡ privmsgs target ls
concat-privmsg_to target [] = refl
concat-privmsg_to target (l ∷ ls) =
    ap (λ x. message (Command.privmsg target l) ∷ x) (concat-privmsg_to target ls)

-- Each line of the text is one message, as it is, or is cut into pieces.
abbrev pub IsWrapping : ℕ → List Text → List Text → Type 0
IsWrapping limit [] out = out ≡ []
IsWrapping limit (line ∷ rest) out =
    (here after : List Text) × (out ≡ here ++ after)
    × (((len line < limit) × (here ≡ line ∷ [])) ⊎ ((limit ≤ len line) × Pieces limit line here))
    × IsWrapping limit rest after

wrap_each-IsWrapping :
    (env : Env) (s : State) (dest : MsgDest) (limit : ℕ) (ls out : List Text)
    → privmsg_content_max_len env s dest ≡ done limit
    → wrap_each env s dest ls ≡ done out
    → IsWrapping limit ls out
unfolding wrap_each
wrap_each-IsWrapping env s dest limit [] out m h = sym (done-injective h)
wrap_each-IsWrapping env s dest limit (l ∷ ls) out m h =
    let (here, e, h') =
      >>=-eq-done (wrap_msg l limit)
        (λ here. (do others ← wrap_each env s dest ls; done (here ++ others))) (rw m at h) in
    let (after, f, h'') =
      >>=-eq-done (wrap_each env s dest ls) (λ others. done (here ++ others)) h' in
    (
      here,
      after,
      sym (done-injective h''),
      wrap_msg-Pieces l limit here e,
      wrap_each-IsWrapping env s dest limit ls after m f,
    )

abbrev pub reply_text : State → Text → Text → Text
reply_text s addressee msg =
    addressee ++ (if is_nil addressee then [] else s.addressee_suffix) ++ msg

-- If a reply is composed, its messages are `PRIVMSG`s to the destination; their contents are the
-- lines of the text, after the addressee and the suffix where there is one, in order, each line as
-- one message where it is shorter than the limit, and else cut into trimmed pieces of which only the
-- last may be longer than the limit.
pub compose_msg-IsWrapping :
    (env : Env) (s : State) (dest : MsgDest) (addressee msg : Text) (limit : ℕ)
    (o : Option (LibReaction Message))
    → privmsg_content_max_len env s dest ≡ done limit
    → compose_msg env s dest addressee msg ≡ done o
    → (out : List Text) × IsWrapping limit (lines (reply_text s addressee msg)) out
      × (flatten_option o ≡ privmsgs dest.target out)
unfolding compose_msg
compose_msg-IsWrapping env s dest addressee msg limit o m h =
    let (out, e, h') =
      >>=-eq-done (wrap_each env s dest (lines (reply_text s addressee msg)))
        (λ out. done (gather (map (privmsg_to dest.target) out))) h in
    (
      out,
      wrap_each-IsWrapping env s dest limit (lines (reply_text s addressee msg)) out m e,
      ap flatten_option (sym (done-injective h'))
          ∙ flatten-gather (map (privmsg_to dest.target) out)
          ∙ concat-privmsg_to dest.target out,
    )

wrap_each-Fits :
    (env : Env) (s : State) (dest : MsgDest) (limit : ℕ) (ls : List Text)
    → privmsg_content_max_len env s dest ≡ done limit
    → All (Fits limit) ls
    → wrap_each env s dest ls ≡ done ls
unfolding wrap_each
wrap_each-Fits env s dest limit [] m a = refl
wrap_each-Fits env s dest limit (l ∷ ls) m a =
    rw (m, wrap_msg-Fits limit l a.0, wrap_each-Fits env s dest limit ls m a.1) refl

-- A reply whose lines all fit is composed, and its messages are the lines, unchanged and in order.
pub compose_msg-Fits :
    (env : Env) (s : State) (dest : MsgDest) (addressee msg : Text) (limit : ℕ)
    → privmsg_content_max_len env s dest ≡ done limit
    → All (Fits limit) (lines (reply_text s addressee msg))
    → (o : Option (LibReaction Message)) × (compose_msg env s dest addressee msg ≡ done o)
      × (flatten_option o ≡ privmsgs dest.target (lines (reply_text s addressee msg)))
unfolding compose_msg
compose_msg-Fits env s dest addressee msg limit m a =
    let ls = lines (reply_text s addressee msg) in
    (
      gather (map (privmsg_to dest.target) ls),
      rw (wrap_each-Fits env s dest limit ls m a) refl,
      flatten-gather (map (privmsg_to dest.target) ls) ∙ concat-privmsg_to dest.target ls,
    )
