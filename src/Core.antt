-- ===== src/Core.antt =====
-- The framework: the files of src/core.
pub mod Prefix
pub mod Err
pub mod Reaction
pub mod PkgInfo
pub mod Config
pub mod ModlSys
pub mod State
pub mod Load
pub mod Wrap
pub mod Irc
pub mod Env
pub mod BotCmd
pub mod Trigger
pub mod Reply
pub mod World
pub mod Comm
pub mod Jobs
pub mod Registration
pub mod Send
pub mod Handler
pub mod Start
