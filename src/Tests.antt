-- ===== src/Tests.antt =====
-- Concrete inputs, and the theorems of the library at them.
pub mod Data
pub mod Yaml
pub mod Names
pub mod Registry
pub mod Sending
pub mod Running
pub mod Munge
pub mod Quote
pub mod Library
pub mod Starting
