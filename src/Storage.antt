-- ===== src/Storage.antt =====
-- The tables of prflagger/storage.
pub mod Runs
pub mod Events
pub mod Repos
pub mod Findings
pub mod Graph
pub mod Charters
pub mod Notices
pub mod Reviews
