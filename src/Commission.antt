-- ===== src/Commission.antt =====
-- commission/: who earns what from a period's volume. Texts (rank names, statuses, currency codes)
-- are numbers: the code compares them and does nothing else with them.
pub mod Types
pub mod Eligibility
pub mod Checks
pub mod Walk
pub mod Finalize
pub mod BoardCycles
pub mod Unilevel
pub mod Binary
pub mod Examples
