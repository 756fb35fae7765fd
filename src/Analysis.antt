-- ===== src/Analysis.antt =====
-- prflagger/analysis
pub mod Diff
