-- ===== src/Delegation.antt =====
-- The modules of the delegation contract (contracts/credence_delegation/src) that are modelled.
pub mod Nonce
