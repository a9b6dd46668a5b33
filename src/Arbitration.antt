-- ===== src/Arbitration.antt =====
-- Arbitration (contracts/arbitration/src/lib.rs): arbitrators vote on disputes by weight, and whoever
-- calls it after the voting period has the votes counted.
pub mod Status
pub mod State
pub mod Arbitrators
pub mod Disputes
pub mod Tally
pub mod Calls
pub mod Resolution
pub mod Voting
pub mod Invariant
pub mod History
pub mod Registry
pub mod Pages
mod Tests
