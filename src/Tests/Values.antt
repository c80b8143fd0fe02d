-- ===== src/Tests/Values.antt =====
-- Widths, negation, bit counts and constructors at one, two and three limbs.
use sqisign_selkie.Prelude.{ℕ, ◌^◌, ◌-◌, arith, [], ◌∷◌}
use sqisign_selkie.Int.{ℤ, negsuc}
use sqisign_selkie.BigInt.{BigInt, IsBigInt}

abbrev minus_nine : BigInt
minus_nine = record { sign = 1; limbs = 9 ∷ 0 ∷ [] }

abbrev wide : BigInt
wide = record { sign = 1; limbs = 4 ∷ 6 ∷ [] }

abbrev negative_zero : BigInt
negative_zero = record { sign = 1; limbs = 0 ∷ 0 ∷ [] }

minus_nine-IsBigInt : IsBigInt 2 minus_nine
minus_nine-IsBigInt = record { flag = omega arith; words = omega arith }

wide-IsBigInt : IsBigInt 2 wide
wide-IsBigInt = record { flag = omega arith; words = omega arith }

negative_zero-IsBigInt : IsBigInt 2 negative_zero
negative_zero-IsBigInt = record { flag = omega arith; words = omega arith }

abbrev least_i64 : ℤ
least_i64 = negsuc (2 ^ 63 - 1)

abbrev largest_u64 : ℕ
largest_u64 = 2 ^ 64 - 1
