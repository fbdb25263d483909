-- ===== src/Tests/Yaml.antt =====
-- The check of arguments, at a syntax with one field.
use irc_bot_rs.Base.{◌≡◌, refl, inr, ok, pos}
use irc_bot_rs.Text.{Text, codes}
use irc_bot_rs.Util.Yaml.{Yaml, string, integer, hash, end, field}
use irc_bot_rs.Util.Yaml.Check.{PathBuf, check_type, check_type_inner}
use irc_bot_rs.Util.Yaml.Check.Conforms.{Conforms}
use irc_bot_rs.Util.Yaml.Check.Complete.{check_type_sound, check_type_complete}
use irc_bot_rs.Tests.Data.{yaml}

abbrev syntax : Yaml
syntax = hash (field (string (codes "k")) (string (codes "[v]")) end)

abbrev arg : Yaml
arg = hash (field (string (codes "k")) (integer (pos 1)) end)

check_type_sound_example : Conforms yaml syntax arg
unfolding check_type irc_bot_rs.Util.Yaml.Check.check_node irc_bot_rs.Util.Yaml.Check.check_field
    irc_bot_rs.Util.Yaml.get
check_type_sound_example = check_type_sound yaml syntax arg (codes "<argument>") refl

check_type_complete_example : check_type yaml syntax (hash end) (codes "<argument>") ≡ ok tt
unfolding irc_bot_rs.Util.Yaml.any_to_str irc_bot_rs.Util.Yaml.get irc_bot_rs.Text.ends_with
check_type_complete_example =
    check_type_complete yaml syntax (hash end) (codes "<argument>") ((codes "k", refl), tt, tt)
      (inr (refl, tt))
