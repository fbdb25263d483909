-- ===== src/Modules.antt =====
-- The modules that come with the framework (src/modules/), but for the quotation module.
pub mod Default
pub mod Test
