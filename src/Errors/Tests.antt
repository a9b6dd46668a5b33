-- ===== src/Errors/Tests.antt =====
-- The categories on concrete errors (contracts/credence_errors/src/lib.rs).
use credence_contracts.Errors.{ContractError}
use credence_contracts.Errors.Category.{Placed, category-wire_code}

category-wire_code_example : Placed ContractError.owner_mismatch
category-wire_code_example = category-wire_code ContractError.owner_mismatch
