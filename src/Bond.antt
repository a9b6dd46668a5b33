-- ===== src/Bond.antt =====
-- The modules of the bond contract (contracts/credence_bond/src) that are modelled.
pub mod Claims
pub mod Upgrade
pub mod Parameters
pub mod Nonce
pub mod Governance
