-- ===== src/Multisig/Takeover.antt =====
-- Who can take the contract over (contracts/credence_multisig/src/multisig.rs).
use credence_contracts.Prelude.{ℕ, ◌+◌, ◌≡◌, true, some, [], ◌∷◌}
use credence_contracts.Host.{Address, Env, Action, ◌>>◌, put, put_pair}
use credence_contracts.Multisig.State.{
  ProposalStatus, Proposal, Storage, is_operation_executed, get_signature_count, get_signers,
  get_threshold,
}
use credence_contracts.Multisig.Admin.{initial, initialize}
use credence_contracts.Multisig.Proposals.{sign_proposal, execute_proposal}

-- Three calls of one address, which makes itself the only signer.
unfoldable pub take_over : Env → Address → ℕ → Action Storage (Unit {0})
take_over e a id = do initialize e a (a ∷ []) 1; sign_proposal e a id; execute_proposal e id

-- The storage after the first two.
abbrev alone : Address → Storage → Storage
alone a s = initial a (a ∷ []) 1 s

abbrev signed : Address → ℕ → Storage → Storage
signed a id s = record (alone a s) {
  signature = put_pair id a (some true) s.signature;
  signature_count = put id (some (get_signature_count s id + 1)) s.signature_count;
}

-- What the three calls leave.
pub record Taken (a : Address) (id : ℕ) (p : Proposal) (t : Storage) : Type 0 where
  pub admin : t.pause.admin ≡ some a
  pub signers : get_signers t ≡ a ∷ []
  pub threshold : get_threshold t ≡ 1
  pub proposal : t.proposal id ≡ some (record p { status = ProposalStatus.executed })
  pub hash : is_operation_executed t p.op_hash ≡ true
