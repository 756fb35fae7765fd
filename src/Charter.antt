-- ===== src/Charter.antt =====
-- prflagger/charter: what a repository says it is, and how that moves.
pub mod Signals
pub mod Drift
pub mod Headline
pub mod Relevance
pub mod Rebuild
pub mod Keeper
