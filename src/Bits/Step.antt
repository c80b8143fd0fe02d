-- ===== src/Bits/Step.antt =====
-- One equation for the lowest binary digit of `&`, `|` and `^`, for every operation that goes by
-- digits: the count of digits that the native recursion carries does not matter.
use Prim.Native.Nat.{
  digits, bitwise, differ, bit_xor-bitwise, bit_or-bitwise, bit_and-bitwise, bit_xor, bit_or,
  bit_and, max, min,
}
use native.Mathlib.Decide.{dec_le}
use sqisign_selkie.Prelude.{
  ℕ, zero, suc, ◌+◌, ◌*◌, ◌/◌, ◌%◌, ◌≤◌, ◌<◌, ◌≡◌, refl, sym, ap, ◌∙◌, arith,
}

module _ (rest : ℕ → ℕ) (digit : ℕ → ℕ → ℕ) where
  -- A count that is enough may be raised by one.
  one_more :
      (count a b : ℕ) → a ≤ count → digits rest digit (suc count) a b ≡ digits rest digit count a b
  one_more zero zero b h = refl
  one_more zero (suc a) b h = absurd (omega arith)
  one_more (suc count) zero b h = refl
  one_more (suc count) (suc a) b h =
      ap (λ t. t * 2 + digit (suc a % 2) (b % 2)) (one_more count (suc a / 2) (b / 2) (omega arith))

  any_count : (count a b : ℕ) → a ≤ count → digits rest digit count a b ≡ bitwise rest digit a b
  any_count zero a b h = let e : a ≡ 0 = omega arith in rw e refl
  any_count (suc count) a b h = elim (dec_le a count) [
    | yes fits ↦ one_more count a b fits ∙ any_count count a b fits
    | no over ↦ let e : a ≡ suc count = omega arith in rw e refl
  ]

  lowest_digit :
      ((b : ℕ) → rest b ≡ rest (b / 2) * 2 + digit 0 (b % 2))
      → (a b : ℕ)
      → bitwise rest digit a b ≡ bitwise rest digit (a / 2) (b / 2) * 2 + digit (a % 2) (b % 2)
  lowest_digit ends zero b = ends b
  lowest_digit ends (suc a) b =
      ap (λ t. t * 2 + digit (suc a % 2) (b % 2)) (any_count a (suc a / 2) (b / 2) (omega arith))

differ-eq : (x y : ℕ) → x < 2 → y < 2 → differ x y ≡ (x + y) % 2
differ-eq zero y h g = omega arith
differ-eq (suc zero) zero h g = omega arith
differ-eq (suc zero) (suc zero) h g = omega arith
differ-eq (suc zero) (suc (suc y)) h g = absurd (omega arith)
differ-eq (suc (suc x)) y h g = absurd (omega arith)

pub bit_xor_step : (a b : ℕ) → bit_xor a b ≡ bit_xor (a / 2) (b / 2) * 2 + (a + b) % 2
bit_xor_step a b = omega (
  arith,
  bit_xor-bitwise a b,
  bit_xor-bitwise (a / 2) (b / 2),
  lowest_digit (λ y. y) differ (λ y. omega (arith, differ-eq 0 (y % 2) (omega arith) (omega arith)))
      a b,
  differ-eq (a % 2) (b % 2) (omega arith) (omega arith),
)

pub bit_or_step : (a b : ℕ) → bit_or a b ≡ bit_or (a / 2) (b / 2) * 2 + max (a % 2) (b % 2)
bit_or_step a b =
    bit_or-bitwise a b
    ∙ lowest_digit (λ y. y) max (λ y. omega arith) a b
    ∙ ap (λ t. t * 2 + max (a % 2) (b % 2)) (sym (bit_or-bitwise (a / 2) (b / 2)))

pub bit_and_step : (a b : ℕ) → bit_and a b ≡ bit_and (a / 2) (b / 2) * 2 + min (a % 2) (b % 2)
bit_and_step a b =
    bit_and-bitwise a b
    ∙ lowest_digit (λ y. 0) min (λ y. omega arith) a b
    ∙ ap (λ t. t * 2 + min (a % 2) (b % 2)) (sym (bit_and-bitwise (a / 2) (b / 2)))
