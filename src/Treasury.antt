-- ===== src/Treasury.antt =====
-- The treasury (contracts/credence_treasury/src/treasury.rs): fees and slashed funds are credited by
-- source, and leave by proposals that the signers approve.
pub mod State
pub mod Amounts
pub mod Config
pub mod Funds
pub mod Shares
pub mod Settlement
pub mod Withdrawal
pub mod Deposits
pub mod Calls
pub mod Books
pub mod History
pub mod Solvency
pub mod Signers
mod Tests
