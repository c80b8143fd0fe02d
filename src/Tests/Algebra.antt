-- ===== src/Tests/Algebra.antt =====
-- Two elements of small coordinates at eight limbs.
use sqisign_selkie.Prelude.{◌≡◌, ◌↔◌, ◌⊎◌, arith, [], ◌∷◌, true, some, none}
use sqisign_selkie.Int.{pos, ◌*ℤ◌}
use sqisign_selkie.BigInt.{BigInt, IsBigInt, to_ℤ}
use sqisign_selkie.Algebra.{Element, add, element_eq, element_narrow_to, mul_direct, norm_direct}
use sqisign_selkie.Algebra.Gaussian.{
  numerators, quaternion_mul, quaternion_add, quaternion_scale, SameFraction,
}
use sqisign_selkie.Algebra.Prime.{prime}
use sqisign_selkie.Algebra.Terms.{IsSmall}
use sqisign_selkie.Algebra.Product.{mul_direct_value, mul_direct_assoc}
use sqisign_selkie.Algebra.Norm.{norm_direct-mul_direct}
use sqisign_selkie.Algebra.Sum.{add_value, element_eq_value}
use sqisign_selkie.Algebra.Width.{IsElement, Fits, element_narrow_to_value}

abbrev three : BigInt
three = record { sign = 0; limbs = 3 ∷ 0 ∷ 0 ∷ 0 ∷ 0 ∷ 0 ∷ 0 ∷ 0 ∷ [] }

abbrev minus_two : BigInt
minus_two = record { sign = 1; limbs = 2 ∷ 0 ∷ 0 ∷ 0 ∷ 0 ∷ 0 ∷ 0 ∷ 0 ∷ [] }

abbrev single : BigInt
single = record { sign = 0; limbs = 1 ∷ 0 ∷ 0 ∷ 0 ∷ 0 ∷ 0 ∷ 0 ∷ 0 ∷ [] }

three-IsBigInt : IsBigInt 8 three
three-IsBigInt = record { flag = omega arith; words = omega arith }

minus_two-IsBigInt : IsBigInt 8 minus_two
minus_two-IsBigInt = record { flag = omega arith; words = omega arith }

single-IsBigInt : IsBigInt 8 single
single-IsBigInt = record { flag = omega arith; words = omega arith }

-- (3 − 2i + j + 3k) / 1
abbrev first : Element
first = record { a = three; b = minus_two; c = single; d = three; denom = single }

-- (−2 + 3i + 3j + k) / 3
abbrev second : Element
second = record { a = minus_two; b = three; c = three; d = single; denom = three }

first-IsSmall : IsSmall 8 3 first
first-IsSmall = (
  three-IsBigInt,
  omega arith,
  omega arith,
  (
    minus_two-IsBigInt,
    omega arith,
    omega arith,
    (
      single-IsBigInt,
      omega arith,
      omega arith,
      (three-IsBigInt, omega arith, omega arith, (single-IsBigInt, omega arith, omega arith, tt)),
    ),
  ),
)

second-IsSmall : IsSmall 8 3 second
second-IsSmall = (
  minus_two-IsBigInt,
  omega arith,
  omega arith,
  (
    three-IsBigInt,
    omega arith,
    omega arith,
    (
      three-IsBigInt,
      omega arith,
      omega arith,
      (single-IsBigInt, omega arith, omega arith, (three-IsBigInt, omega arith, omega arith, tt)),
    ),
  ),
)

first-IsElement : IsElement 8 first
first-IsElement = record {
  a = three-IsBigInt;
  b = minus_two-IsBigInt;
  c = single-IsBigInt;
  d = three-IsBigInt;
  denom = single-IsBigInt;
}

mul_direct_value_example :
    (numerators (mul_direct 8 first second)
      ≡ quaternion_mul (pos prime) (numerators first) (numerators second))
    × (to_ℤ (mul_direct 8 first second).denom ≡ to_ℤ single *ℤ to_ℤ three)
mul_direct_value_example =
    mul_direct_value 8 3 first second (omega arith) first-IsSmall second-IsSmall (omega arith)

mul_direct_assoc_example :
    (numerators (mul_direct 8 (mul_direct 8 first second) second)
      ≡ numerators (mul_direct 8 first (mul_direct 8 second second)))
    × (to_ℤ (mul_direct 8 (mul_direct 8 first second) second).denom
        ≡ to_ℤ (mul_direct 8 first (mul_direct 8 second second)).denom)
mul_direct_assoc_example =
    mul_direct_assoc 8 3 first second second (omega arith) first-IsSmall second-IsSmall
      second-IsSmall (omega arith)

norm_direct-mul_direct_example :
    (to_ℤ (norm_direct 8 (mul_direct 8 first second)).0
      ≡ to_ℤ (norm_direct 8 first).0 *ℤ to_ℤ (norm_direct 8 second).0)
    × (to_ℤ (norm_direct 8 (mul_direct 8 first second)).1
        ≡ to_ℤ (norm_direct 8 first).1 *ℤ to_ℤ (norm_direct 8 second).1)
norm_direct-mul_direct_example =
    norm_direct-mul_direct 8 3 first second (omega arith) first-IsSmall second-IsSmall (omega arith)

add_value_example :
    SameFraction
      (numerators (add first second))
      (to_ℤ (add first second).denom)
      (quaternion_add
        (quaternion_scale (to_ℤ three) (numerators first))
        (quaternion_scale (to_ℤ single) (numerators second)))
      (to_ℤ single *ℤ to_ℤ three)
add_value_example = add_value 8 3 first second first-IsSmall second-IsSmall (omega arith)

element_eq_value_example :
    (element_eq first second ≡ true)
    ↔ SameFraction (numerators first) (to_ℤ single) (numerators second) (to_ℤ three)
element_eq_value_example =
    element_eq_value 8 3 first second first-IsSmall second-IsSmall (omega arith)

element_narrow_to_value_example :
    (Fits 4 first
      × (y : Element) × (element_narrow_to 4 first ≡ some y)
      × (numerators y ≡ numerators first)
      × (to_ℤ y.denom ≡ to_ℤ single)
      × IsElement 4 y)
    ⊎ ((¬ Fits 4 first) × (element_narrow_to 4 first ≡ none))
element_narrow_to_value_example = element_narrow_to_value 8 4 first (omega arith) first-IsElement
