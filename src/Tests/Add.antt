-- ===== src/Tests/Add.antt =====
-- Signed addition, subtraction and comparison at two limbs: 5, -7 and the largest magnitude.
use sqisign_selkie.Prelude.{◌^◌, ◌-◌, ◌≡◌, arith, [], ◌∷◌}
use sqisign_selkie.Int.{◌+ℤ◌}
use sqisign_selkie.BigInt.{BigInt, IsBigInt, IsCanonical, to_ℤ, truncated}
use sqisign_selkie.BigInt.Add.{ct_add, vt_add}
use sqisign_selkie.BigInt.Add.Value.{ct_add_value, vt_add-eq-ct_add}

abbrev five : BigInt
five = record { sign = 0; limbs = 5 ∷ 0 ∷ [] }

abbrev minus_largest : BigInt
minus_largest = record { sign = 1; limbs = (2 ^ 64 - 1) ∷ (2 ^ 64 - 1) ∷ [] }

five-IsBigInt : IsBigInt 2 five
five-IsBigInt = record { flag = omega arith; words = omega arith }

minus_largest-IsBigInt : IsBigInt 2 minus_largest
minus_largest-IsBigInt = record { flag = omega arith; words = omega arith }

ct_add_value_example :
    (to_ℤ (ct_add five minus_largest) ≡ truncated 2 (to_ℤ five +ℤ to_ℤ minus_largest))
    × IsBigInt 2 (ct_add five minus_largest)
    × IsCanonical (ct_add five minus_largest)
ct_add_value_example = ct_add_value 2 five minus_largest five-IsBigInt minus_largest-IsBigInt

vt_add-eq-ct_add_example : vt_add five minus_largest ≡ ct_add five minus_largest
vt_add-eq-ct_add_example =
    vt_add-eq-ct_add 2 five minus_largest five-IsBigInt minus_largest-IsBigInt
