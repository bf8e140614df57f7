-- ===== src/Scheduler.antt =====
-- The background scheduler: agent/schedule.py, agent/scheduler.py and agent/scheduler_ops.py.

pub mod Schedule
pub mod Tables
pub mod Service
pub mod Control
pub mod Listing
pub mod Calls
mod Samples
