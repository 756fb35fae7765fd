-- ===== src/Engine.antt =====
-- prflagger/engine
pub mod States
pub mod Queue
pub mod Scheduler
pub mod Consumer
pub mod Recovery
pub mod Life
pub mod Notify
pub mod Watcher
pub mod Ranking
pub mod Janitor
