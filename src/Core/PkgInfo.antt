-- ===== src/Core/PkgInfo.antt =====
-- src/core/pkg_info.rs: what the bot says of the framework it was built with.
use irc_bot_rs.Base.{
  ℕ, Bool, not, ◌&&◌, ◌||◌, Option, none, some, List, [], ◌∷◌, ◌++◌, leb, is_nil, any,
  if◌then◌else◌,
}
use irc_bot_rs.Text.{Text, codes}

-- `char::is_control`: the category Cc of Unicode.
abbrev pub is_control : ℕ → Bool
is_control c = leb c 0x1F || (leb 0x7F c && leb c 0x9F)

-- The first text that is set, is not empty and has no control character.
unfoldable pub choose : List (Option Text) → Text
choose [] = codes "<unknown>"
choose (none ∷ list) = choose list
choose (some s ∷ list) =
    let rest = choose list in if not (is_nil s) && not (any is_control s) then s else rest

-- The variables that are read when the bot is built.
pub record BuildEnv : Type 0 where
  pub cargo_pkg_name : Option Text
  pub irc_bot_rs_git_version : Option Text
  pub cargo_pkg_version : Option Text
  pub cargo_pkg_homepage : Option Text

module _ (env : BuildEnv) where
  unfoldable pub name_str : Text
  unfolding choose
  name_str = choose (env.cargo_pkg_name ∷ [])

  unfoldable pub version_str : Text
  unfolding choose
  version_str = choose (env.irc_bot_rs_git_version ∷ env.cargo_pkg_version ∷ [])

  unfoldable pub homepage_str : Text
  unfolding choose
  homepage_str = choose (env.cargo_pkg_homepage ∷ [])

  unfoldable pub brief_credits_string : Text
  unfolding homepage_str version_str
  brief_credits_string = codes "Built with <" ++ (homepage_str ++ (codes "> " ++ version_str))
