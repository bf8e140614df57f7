-- ===== src/Release.antt =====
-- The release command: agent/release_pipeline.py, agent/release_command.py and
-- agent/release_executor.py.
pub mod Versions
pub mod Titles
pub mod Answers
pub mod Plan
pub mod Steps
pub mod Checks
pub mod Confirm
mod Samples
