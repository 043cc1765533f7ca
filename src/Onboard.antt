-- ===== src/Onboard.antt =====
-- pkg/onboard: the checkpointed onboarding of a developer.
pub mod Stage
pub mod Options
pub mod Session
pub mod Machine
pub mod Steps
pub mod SessionFile
pub mod Run
pub mod Sanitize
pub mod Landing
pub mod Progress
pub mod Resuming
mod Tests
