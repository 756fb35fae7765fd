-- ===== src/Sandbox.antt =====
-- The sandbox, prflagger/sandbox.
pub mod Stream
pub mod Pool
pub mod Jobs
