-- ===== src/Scheduler.antt =====
-- src/bridge/core/LogScheduler.cpp: the table of scheduled tasks.
pub mod Tasks
pub mod Once
pub mod Gone
pub mod Answers
