-- ===== src/Tests/Vector.antt =====
-- Dot products, powers and the narrow conversion at small values.
use sqisign_selkie.Prelude.{◌^◌, ◌%◌, ◌≡◌, arith, [], ◌∷◌, bit_and}
use sqisign_selkie.Int.{signed}
use sqisign_selkie.Limbs.{val, cap}
use sqisign_selkie.BigInt.{BigInt, IsBigInt, to_ℤ}
use sqisign_selkie.BigInt.Pow.{pow}
use sqisign_selkie.BigInt.Pow.Value.{pow_value}
use sqisign_selkie.Linear.Vector.{Vector}
use sqisign_selkie.Linear.Vector.Value.{IsVector}

abbrev six : BigInt
six = record { sign = 0; limbs = 6 ∷ [] }

abbrev minus_three : BigInt
minus_three = record { sign = 1; limbs = 3 ∷ [] }

six-IsBigInt : IsBigInt 1 six
six-IsBigInt = record { flag = omega arith; words = omega arith }

minus_three-IsBigInt : IsBigInt 1 minus_three
minus_three-IsBigInt = record { flag = omega arith; words = omega arith }

abbrev left : Vector
left = record { a = six; b = minus_three; c = six; d = minus_three }

abbrev right : Vector
right = record { a = minus_three; b = minus_three; c = six; d = six }

left-IsVector : IsVector 1 left
left-IsVector = record {
  a = six-IsBigInt;
  b = minus_three-IsBigInt;
  c = six-IsBigInt;
  d = minus_three-IsBigInt;
}

right-IsVector : IsVector 1 right
right-IsVector = record {
  a = minus_three-IsBigInt;
  b = minus_three-IsBigInt;
  c = six-IsBigInt;
  d = six-IsBigInt;
}

pow_value_example :
    (to_ℤ (pow minus_three 45) ≡ signed (bit_and 1 (45 % 2)) (val minus_three.limbs ^ 45 % cap 1))
    × IsBigInt 1 (pow minus_three 45)
pow_value_example = pow_value 1 45 minus_three (omega arith) (omega arith) minus_three-IsBigInt
