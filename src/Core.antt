-- ===== src/Core.antt =====
-- prflagger/core
pub mod Models
pub mod Records
pub mod Ids
