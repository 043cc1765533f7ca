-- ===== src/Sqlite.antt =====
-- pkg/onboard/infrastructure/sqlite: the stores of the onboarding daemon. The SQL engine is a
-- parameter: one function for each statement that the code sends.
pub mod Grants
pub mod Challenges
pub mod Events
