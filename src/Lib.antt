-- ===== src/Lib.antt =====
-- Credence: contracts for bonds, disputes and treasuries on Soroban. This library models the
-- contracts and the arithmetic below, and proves what they promise.
--
-- The parts, and how they interact:
--   * Prelude, with Prelude/Tests, Lists, Int, Counting and Slices: the numbers, tests and lists the
--     other files share. A native natural number stands for an unsigned integer, with its largest
--     value written out where the code checks it; `ℤ` stands for an i128. `Counts` says how many
--     addresses a table of flags holds.
--   * Host, Host/Monad, Host/Token: the host that the contracts run in. A call is an `Action`: it
--     takes the storage and either returns with a new storage or panics, which leaves no trace. An
--     `Env` says what the host answers during one call: the time, the sequence number, and whose
--     authorisation it has. The token contracts are a parameter.
--   * Errors, Errors/Category: contracts/credence_errors/src/lib.rs, `ContractError` with its codes
--     and categories, both declarations of `SignatureExpired` included. All contracts panic with
--     these errors.
--   * Math, Math/Rounding, Math/BasisPoints: contracts/credence_math/src/lib.rs, one definition for
--     each function. The 256-bit product of `mul_div_i128` never wraps, so it is a natural number.
--   * Timelock: contracts/timelock/src/lib.rs. `queue_operation`, `execute_operation` and
--     `cancel_operation` over one storage; Calls has the sequences of calls, Invariant and History
--     what holds along them, Guarantees the results.
--   * Pausable: contracts/credence_multisig/src/pausable.rs, of which the treasury, the registry and
--     the arbitration contract hold copies. Its storage is a field of the storage of the contract
--     that uses it, and every operation of that contract asks it first.
--   * Multisig: contracts/credence_multisig/src/multisig.rs. State has the storage, Admin the signer
--     set, Proposals the life of a proposal, Prune the sweep; Counting, Pruning, Signers, Execution,
--     History and Takeover have the proofs.
--   * Treasury: contracts/credence_treasury/src/treasury.rs. State has the storage, Config the
--     settings, Amounts the arithmetic, Funds deposits and withdrawals; `record_fee`,
--     `check_withdrawal` and `settle` are the parts of `receive_fee` and `execute_withdrawal` before
--     and after their transfers. The other files have the proofs: Solvency and History those on
--     sequences of calls.
--   * Arbitration: contracts/arbitration/src/lib.rs and contracts/arbitration/src/status.rs. Status
--     has the state machine of disputes, State the storage, Arbitrators the registry and the quorum,
--     Disputes the life of a dispute; Tally, Resolution, Voting, Invariant, History and Registry
--     have the proofs, and Pages the pages of arbitrators. A call that returns `Err`
--     fails like one that panics.
--   * Registry: contracts/credence_registry/src/lib.rs and contracts/credence_registry/src/idempotency.rs.
--     Registry has the storage and the calls (`remove` of the source is `remove_identity`), Hashes
--     the comparison of code hashes, Idempotency the transactions that run once; Inverse,
--     Registration, Guarantees and Pages have the proofs. The answers of bond contracts to
--     `supports_interface` and `get_contract_code_hash` are a parameter.
--   * Admin: contracts/admin/src/lib.rs and contracts/admin/src/pausable.rs. Admin has the storage,
--     Roles the assignment, removal and suspension of admins, Ownership the transfer of ownership,
--     Pausing the pause module with a check for super admins; Outcomes, Agreement, Unchanged,
--     Invariant, Authority, Owner and Suspension have the proofs.
--   * Bond/Claims: contracts/credence_bond/src/claims.rs, the rewards that users collect. Payment
--     has the transfer and what a payment does to the claims, Accounts and Sweeps the sums, Pages the
--     pages, Ids and History the order of the ids along sequences of calls.
--   * Bond/Upgrade: contracts/credence_bond/src/upgrade_auth.rs, who can replace the implementation.
--     Execution says what the calls check and store, Order that the proposals stay in order,
--     Stuck what follows from an implementation that no call stores.
--   * Bond/Parameters: contracts/credence_bond/src/parameters.rs, nine values that the admin sets.
--     `set_between` is the body that the nine setters share. Calls has the sequences of calls,
--     Setters what one call does, Bounds what holds along them.
--   * Bond/Nonce and Delegation/Nonce: contracts/credence_bond/src/nonce.rs and
--     contracts/credence_delegation/src/nonce.rs, the numbers that make a signed action usable once.
--   * Bond/Governance: contracts/credence_bond/src/governance_approval.rs, the votes on slashing.
--     Execution counts the votes, Once has the sequences of calls.
--   * The modules named Tests run the results on concrete storages.
--
-- Loops: the code's loops run over lists, maps of votes or a bounded range of ids, so the model's are
-- structural recursion, and none needs fuel.
--
-- Not modelled: events, and the extension of storage lifetimes, which no call reads back; the texts
-- of panics; the getters, apart from those that other operations use. Addresses, hashes and texts
-- are only compared, so numbers stand for the first two and lists of numbers for the third. The
-- delegation contract is not modelled apart from its nonces, nor is the bond contract apart from its
-- claims, upgrades, parameters, nonces and votes: parts of its lib.rs are left from a merge and do
-- not parse.
pub mod Admin
pub mod Arbitration
pub mod Bond
pub mod Delegation
pub mod Errors
pub mod Host
pub mod Math
pub mod Multisig
pub mod Pausable
pub mod Prelude
pub mod Registry
pub mod Timelock
pub mod Treasury
