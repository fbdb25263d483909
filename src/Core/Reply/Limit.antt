-- ===== src/Core/Reply/Limit.antt =====
-- The length of the messages that the bot sends.
use irc_bot_rs.Base.{
  ℕ, ◌+◌, ◌-◌, ◌^◌, ◌≤◌, ◌<◌, ◌≡◌, refl, ◌↔◌, ◌⊎◌, inl, inr, true, false, Bool-cases, ◌++◌, arith,
  leb,
}
use irc_bot_rs.Text.{Text, codes, len}
use irc_bot_rs.Text.Laws.{len-append}
use irc_bot_rs.Core.Err.{done, panicked}
use irc_bot_rs.Core.Env.{Env}
use irc_bot_rs.Core.Irc.{MsgDest}
use irc_bot_rs.Core.Prefix.{owning_len}
use irc_bot_rs.Core.Reply.{privmsg_content_max_len}
use irc_bot_rs.Core.State.{State, read_msg_prefix, prefix_len}

-- A `PRIVMSG` as the server relays it.
abbrev pub relayed : Text → Text → Text → Text
relayed prefix target content =
    codes ":"
    ++ (prefix ++ (codes " PRIVMSG " ++ (target ++ (codes " :" ++ (content ++ codes "\r\n")))))

len-relayed :
    (prefix target content : Text)
    → len (relayed prefix target content) ≡ len prefix + len target + len content + 14
len-relayed prefix target content = omega (
  arith,
  len-append prefix (codes " PRIVMSG " ++ (target ++ (codes " :" ++ (content ++ codes "\r\n")))),
  len-append target (codes " :" ++ (content ++ codes "\r\n")),
  len-append content (codes "\r\n"),
)

-- For a message prefix that leaves room in the 512 bytes of a message, the limit on the content of a
-- `PRIVMSG` is exact: the message is relayed within 512 bytes if and only if its content is within
-- the limit.
pub privmsg_content_max_len-relayed :
    (env : Env) (s : State) (dest : MsgDest) (content : Text)
    → s.msg_prefix.poisoned ≡ false
    → len s.msg_prefix.content.backing + len dest.target + 14 ≤ 512
    → (n : ℕ) × (privmsg_content_max_len env s dest ≡ done n)
      × ((len (relayed s.msg_prefix.content.backing dest.target content) ≤ 512) ↔ (len content ≤ n))
unfolding privmsg_content_max_len prefix_len read_msg_prefix owning_len
privmsg_content_max_len-relayed env s dest content p room =
    let prefix = s.msg_prefix.content.backing in
    let room' : leb (len prefix + 7 + len dest.target + 7) 512 ≡ true = ground arith in
    let total = len-relayed prefix dest.target content in
    (
      512 - (len prefix + 7 + len dest.target + 7),
      rw (p, room') refl,
      (λ h. omega arith, λ h. omega arith),
    )

-- For a message prefix and a target that leave no room for any content, the subtraction goes below
-- zero: the bot panics where the arithmetic is checked, and else works with a limit far above the
-- length of a message.
privmsg_content_max_len_below :
    (env : Env) (s : State) (dest : MsgDest)
    → s.msg_prefix.poisoned ≡ false
    → 512 < len s.msg_prefix.content.backing + len dest.target + 14
    → len s.msg_prefix.content.backing + len dest.target + 14 < 2 ^ 64
    → ((env.overflow_checks ≡ true) × (privmsg_content_max_len env s dest ≡ panicked))
      ⊎ ((n : ℕ) × (privmsg_content_max_len env s dest ≡ done n) × (512 < n))
unfolding privmsg_content_max_len prefix_len read_msg_prefix owning_len
privmsg_content_max_len_below env s dest p room small =
    let prefix = s.msg_prefix.content.backing in
    let room' : leb (len prefix + 7 + len dest.target + 7) 512 ≡ false = ground arith in
    elim (Bool-cases env.overflow_checks) [
      | inl y ↦ inl (y, rw (p, room', y) refl)
      | inr n ↦ inr (
        2 ^ 64 + 512 - (len prefix + 7 + len dest.target + 7),
        rw (p, room', n) refl,
        omega arith,
      )
    ]
