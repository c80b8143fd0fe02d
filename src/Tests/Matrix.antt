-- ===== src/Tests/Matrix.antt =====
-- A matrix of small entries at one limb.
use sqisign_selkie.Prelude.{◌*◌, ◌≡◌, arith, [], ◌∷◌, map}
use sqisign_selkie.Int.{pos}
use sqisign_selkie.Ring.Integers.{integers}
use sqisign_selkie.Ring.Sound.{value}
use sqisign_selkie.BigInt.{BigInt, IsBigInt, to_ℤ}
use sqisign_selkie.BigInt.Expression.{Exact}
use sqisign_selkie.Linear.Matrix.{
  Matrix, entry, det, adjugate, mat_mul, transpose, cofactor_and_det,
}
use sqisign_selkie.Linear.Matrix.Values.{entries, IsSmall, det_expr, det-Exact}
use sqisign_selkie.Linear.Matrix.Adjugate.{mat_mul-adjugate}
use sqisign_selkie.Linear.Matrix.Cofactors.{cofactor_and_det-adjugate}

abbrev two : BigInt
two = record { sign = 0; limbs = 2 ∷ [] }

abbrev minus_one : BigInt
minus_one = record { sign = 1; limbs = 1 ∷ [] }

abbrev nought : BigInt
nought = record { sign = 0; limbs = 0 ∷ [] }

two-IsBigInt : IsBigInt 1 two
two-IsBigInt = record { flag = omega arith; words = omega arith }

minus_one-IsBigInt : IsBigInt 1 minus_one
minus_one-IsBigInt = record { flag = omega arith; words = omega arith }

nought-IsBigInt : IsBigInt 1 nought
nought-IsBigInt = record { flag = omega arith; words = omega arith }

abbrev sample : Matrix
sample = record {
  r0 = record { a = two; b = minus_one; c = nought; d = two };
  r1 = record { a = minus_one; b = two; c = minus_one; d = nought };
  r2 = record { a = nought; b = minus_one; c = two; d = minus_one };
  r3 = record { a = two; b = nought; c = minus_one; d = two };
}

sample-IsSmall : IsSmall 1 2 sample
sample-IsSmall = (
  two-IsBigInt,
  omega arith,
  omega arith,
  (
    minus_one-IsBigInt,
    omega arith,
    omega arith,
    (
      nought-IsBigInt,
      omega arith,
      omega arith,
      (
        two-IsBigInt,
        omega arith,
        omega arith,
        (
          minus_one-IsBigInt,
          omega arith,
          omega arith,
          (
            two-IsBigInt,
            omega arith,
            omega arith,
            (
              minus_one-IsBigInt,
              omega arith,
              omega arith,
              (
                nought-IsBigInt,
                omega arith,
                omega arith,
                (
                  nought-IsBigInt,
                  omega arith,
                  omega arith,
                  (
                    minus_one-IsBigInt,
                    omega arith,
                    omega arith,
                    (
                      two-IsBigInt,
                      omega arith,
                      omega arith,
                      (
                        minus_one-IsBigInt,
                        omega arith,
                        omega arith,
                        (
                          two-IsBigInt,
                          omega arith,
                          omega arith,
                          (
                            nought-IsBigInt,
                            omega arith,
                            omega arith,
                            (
                              minus_one-IsBigInt,
                              omega arith,
                              omega arith,
                              (two-IsBigInt, omega arith, omega arith, tt),
                            ),
                          ),
                        ),
                      ),
                    ),
                  ),
                ),
              ),
            ),
          ),
        ),
      ),
    ),
  ),
)

det-Exact_example :
    Exact 1
      (det sample)
      (value integers det_expr (map to_ℤ (entries sample)))
      (24 * (2 * (2 * (2 * 2))))
det-Exact_example = det-Exact 1 2 sample sample-IsSmall (omega arith)

mat_mul-adjugate_example : to_ℤ (entry (mat_mul 1 sample (adjugate sample)) 2 1) ≡ pos 0
mat_mul-adjugate_example =
    mat_mul-adjugate 1 2 sample 2 1 sample-IsSmall (omega arith) (omega arith) (omega arith)

cofactor_and_det-adjugate_example :
    (to_ℤ (entry (cofactor_and_det sample).0 1 2) ≡ to_ℤ (entry (transpose (adjugate sample)) 1 2))
    × (to_ℤ (cofactor_and_det sample).1 ≡ to_ℤ (det sample))
cofactor_and_det-adjugate_example =
    cofactor_and_det-adjugate 1 2 sample 1 2 sample-IsSmall (omega arith) (omega arith)
      (omega arith)
