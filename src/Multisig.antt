-- ===== src/Multisig.antt =====
-- The multi-signature contract (contracts/credence_multisig/src/multisig.rs): signers propose and
-- sign, and anyone executes a proposal once enough current signers have signed it.
pub mod State
pub mod Admin
pub mod Proposals
pub mod Prune
pub mod Calls
pub mod Pruning
pub mod Signers
pub mod Counting
pub mod Execution
pub mod History
pub mod Takeover
mod Tests
