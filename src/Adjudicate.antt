-- ===== src/Adjudicate.antt =====
-- prflagger/adjudicate
pub mod Citations
