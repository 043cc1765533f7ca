-- ===== src/Owner.antt =====
-- pkg/owner/domain: one-time admin grants and OTP challenges.
pub mod Code
pub mod Errors
pub mod GrantRecord
pub mod Vault
pub mod VaultFile
pub mod Service
pub mod Grant
pub mod ChallengeRecord
pub mod Challenge
