-- ===== src/Util.antt =====
-- The helpers of src/util.
pub mod Yaml
pub mod Regex
pub mod Irc
pub mod Munge
