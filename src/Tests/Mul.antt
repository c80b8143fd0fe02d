-- ===== src/Tests/Mul.antt =====
-- Signed multiplication, comparison and sums of terms at two limbs.
use sqisign_selkie.Prelude.{◌^◌, ◌-◌, ◌≡◌, arith, List, [], ◌∷◌}
use sqisign_selkie.Int.{◌*ℤ◌}
use sqisign_selkie.BigInt.{BigInt, IsBigInt, IsCanonical, to_ℤ, truncated}
use sqisign_selkie.BigInt.Mul.{ct_mul, vt_mul}
use sqisign_selkie.BigInt.Mul.Value.{ct_mul_value, vt_mul-eq-ct_mul}
use sqisign_selkie.BigInt.Compare.{cmp}
use sqisign_selkie.BigInt.Compare.Value.{compare_ℤ, cmp_value}
use sqisign_selkie.BigInt.Mac.{mac_sum}
use sqisign_selkie.BigInt.Mac.Value.{sum_ℤ, mac_sum_value}

abbrev seven : BigInt
seven = record { sign = 0; limbs = 7 ∷ 0 ∷ [] }

abbrev minus_wide : BigInt
minus_wide = record { sign = 1; limbs = 3 ∷ (2 ^ 64 - 1) ∷ [] }

abbrev signed_zero : BigInt
signed_zero = record { sign = 1; limbs = 0 ∷ 0 ∷ [] }

abbrev terms : List BigInt
terms = minus_wide ∷ seven ∷ minus_wide ∷ []

seven-IsBigInt : IsBigInt 2 seven
seven-IsBigInt = record { flag = omega arith; words = omega arith }

minus_wide-IsBigInt : IsBigInt 2 minus_wide
minus_wide-IsBigInt = record { flag = omega arith; words = omega arith }

signed_zero-IsBigInt : IsBigInt 2 signed_zero
signed_zero-IsBigInt = record { flag = omega arith; words = omega arith }

ct_mul_value_example :
    (to_ℤ (ct_mul seven minus_wide) ≡ truncated 2 (to_ℤ seven *ℤ to_ℤ minus_wide))
    × IsBigInt 2 (ct_mul seven minus_wide)
    × IsCanonical (ct_mul seven minus_wide)
ct_mul_value_example = ct_mul_value 2 seven minus_wide seven-IsBigInt minus_wide-IsBigInt

vt_mul-eq-ct_mul_example : vt_mul seven minus_wide ≡ ct_mul seven minus_wide
vt_mul-eq-ct_mul_example = vt_mul-eq-ct_mul 2 seven minus_wide seven-IsBigInt minus_wide-IsBigInt

cmp_value_example : cmp minus_wide seven ≡ compare_ℤ (to_ℤ minus_wide) (to_ℤ seven)
cmp_value_example = cmp_value 2 minus_wide seven minus_wide-IsBigInt seven-IsBigInt

mac_sum_value_example :
    (to_ℤ (mac_sum 2 terms) ≡ truncated 2 (sum_ℤ terms))
    × IsBigInt 2 (mac_sum 2 terms)
    × IsCanonical (mac_sum 2 terms)
mac_sum_value_example =
    mac_sum_value 2 terms (minus_wide-IsBigInt, (seven-IsBigInt, (minus_wide-IsBigInt, tt)))
      (omega arith)
