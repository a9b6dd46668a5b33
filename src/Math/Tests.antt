-- ===== src/Math/Tests.antt =====
-- The arithmetic on concrete numbers (contracts/credence_math/src/lib.rs).
use credence_contracts.Prelude.{◌≡◌, some, none, arith, if◌then◌else◌, xor}
use credence_contracts.Prelude.Int.{pos, negsuc, is_negative, signed, fits_i128}
use credence_contracts.Math.{nearest, mul_div_i128}
use credence_contracts.Math.Rounding.{mul_div_correct}

mul_div_correct_example :
    let r =
      signed (xor (xor (is_negative (negsuc 6)) (is_negative (pos 3))) (is_negative (pos 2))) 11 in
    mul_div_i128 (negsuc 6) (pos 3) (pos 2) nearest ≡ (if fits_i128 r then some r else none)
mul_div_correct_example =
    mul_div_correct (negsuc 6) (pos 3) (pos 2) nearest 11 (omega arith) (omega arith)
