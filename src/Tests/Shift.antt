-- ===== src/Tests/Shift.antt =====
-- Shifts at two limbs, across the limb boundary.
use sqisign_selkie.Prelude.{◌*◌, ◌%◌, ◌^◌, ◌-◌, ◌≡◌, arith, List, ℕ, [], ◌∷◌}
use sqisign_selkie.Int.{signed}
use sqisign_selkie.Limbs.{val, cap}
use sqisign_selkie.BigInt.{BigInt, IsBigInt, to_ℤ}
use sqisign_selkie.BigInt.Shift.{shl}
use sqisign_selkie.BigInt.Shift.Value.{shl_value}

abbrev limbs : List ℕ
limbs = 9 ∷ (2 ^ 64 - 3) ∷ []

abbrev negative : BigInt
negative = record { sign = 1; limbs = limbs }

negative-IsBigInt : IsBigInt 2 negative
negative-IsBigInt = record { flag = omega arith; words = omega arith }

shl_value_example :
    (to_ℤ (shl negative 130) ≡ signed 1 (val limbs * 2 ^ 130 % cap 2))
    × IsBigInt 2 (shl negative 130)
    × ((shl negative 130).sign ≡ 1)
shl_value_example = shl_value 2 negative 130 negative-IsBigInt
