-- ===== src/Llm.antt =====
-- prflagger/llm
pub mod Ledger
pub mod Client
