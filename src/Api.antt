-- ===== src/Api.antt =====
-- The service's interface, prflagger/api.
pub mod Feed
