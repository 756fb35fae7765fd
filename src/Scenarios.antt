-- ===== src/Scenarios.antt =====
-- Small concrete inputs, on which the definitions run and the theorems apply.
mod Queues
mod Calls
mod Money
mod Texts
mod Feeds
mod Tables
mod Memory
mod Polls
mod Answers
mod Jobs
mod Sweeps
