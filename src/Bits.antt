-- ===== src/Bits.antt =====
-- Laws of the binary operations `&`, `|` and `^` on numbers, from their digit recursion.
mod Step
use Step.{bit_and_step, bit_or_step, bit_xor_step}
use Prim.Native.Nat.{bit_and-bitwise, bit_or-bitwise, bit_xor-bitwise}
use native.Mathlib.Nat.{pow-suc, one-le-pow, div-add-mod'}
use sqisign_selkie.Prelude.{
  ℕ, zero, suc, ◌+◌, ◌-◌, ◌*◌, ◌/◌, ◌%◌, ◌^◌, ◌≤◌, ◌<◌, bit_and, bit_or, bit_xor, ◌≡◌, refl, arith,
  ap, sym, ◌∙◌, Bool, true, halving_induction,
}

-- `|`

pub bit_or-zero : (a : ℕ) → bit_or a 0 ≡ a
bit_or-zero =
    halving_induction (λ a. bit_or a 0 ≡ a) refl (λ a h ih. omega (arith, bit_or_step a 0, ih))

pub le-bit_or : (a b : ℕ) → (a ≤ bit_or a b) × (b ≤ bit_or a b)
le-bit_or =
    halving_induction (λ a. (b : ℕ) → (a ≤ bit_or a b) × (b ≤ bit_or a b))
      (λ b. omega (arith, bit_or-bitwise 0 b))
      (λ a h ih b. omega (arith, bit_or_step a b, ih (b / 2)))

double_pow : (q k : ℕ) → q * 2 ^ suc k ≡ 2 * (q * 2 ^ k)
double_pow q k = omega (arith, ap (λ (t : ℕ). q * t) (pow-suc 2 k))

-- Disjoint fields: `(q << k) | r` is a sum where `r` has `k` bits.
pub bit_or_disjoint : (k q r : ℕ) → r < 2 ^ k → bit_or (q * 2 ^ k) r ≡ q * 2 ^ k + r
bit_or_disjoint zero q r h = ground (arith, bit_or-zero q)
bit_or_disjoint (suc k) q r h =
    ground (
      arith,
      pow-suc 2 k,
      double_pow q k,
      bit_or_step (q * 2 ^ suc k) r,
      bit_or_disjoint k q (r / 2),
    )

pub bit_or-lt : (k a b : ℕ) → a < 2 ^ k → b < 2 ^ k → bit_or a b < 2 ^ k
bit_or-lt zero a b h g = ground (arith, bit_or-zero 0)
bit_or-lt (suc k) a b h g =
    ground (arith, pow-suc 2 k, bit_or_step a b, bit_or-lt k (a / 2) (b / 2))

pub bit_or_comm : (a b : ℕ) → bit_or a b ≡ bit_or b a
bit_or_comm =
    halving_induction (λ a. (b : ℕ) → bit_or a b ≡ bit_or b a)
      (λ b. omega (arith, bit_or-bitwise 0 b, bit_or-zero b))
      (λ a h ih b. omega (arith, bit_or_step a b, bit_or_step b a, ih (b / 2)))

-- `&`

-- A mask of `k` ones keeps the remainder by `2 ^ k`.
mask_keeps : (k q r : ℕ) → r < 2 ^ k → bit_and (2 ^ k - 1) (q * 2 ^ k + r) ≡ r
mask_keeps zero q r h = omega (arith, bit_and-bitwise 0 (q * 1 + r))
mask_keeps (suc k) q r h = ground (
  arith,
  pow-suc 2 k,
  double_pow q k,
  bit_and_step (2 ^ suc k - 1) (q * 2 ^ suc k + r),
  mask_keeps k q (r / 2),
)

pub mask-bit_and : (k a : ℕ) → bit_and (2 ^ k - 1) a ≡ a % 2 ^ k
mask-bit_and k a =
    ground (arith, one-le-pow k 2, div-add-mod' a (2 ^ k), mask_keeps k (a / 2 ^ k) (a % 2 ^ k))

pub zero-bit_and : (a : ℕ) → bit_and 0 a ≡ 0
zero-bit_and a = bit_and-bitwise 0 a

pub bit_and-zero : (a : ℕ) → bit_and a 0 ≡ 0
bit_and-zero =
    halving_induction (λ a. bit_and a 0 ≡ 0) refl (λ a h ih. omega (arith, bit_and_step a 0, ih))

pub bit_and_comm : (a b : ℕ) → bit_and a b ≡ bit_and b a
bit_and_comm =
    halving_induction (λ a. (b : ℕ) → bit_and a b ≡ bit_and b a)
      (λ b. zero-bit_and b ∙ sym (bit_and-zero b))
      (λ a h ih b. omega (arith, bit_and_step a b, bit_and_step b a, ih (b / 2)))

-- `^`

pub bit_xor-zero : (a : ℕ) → bit_xor a 0 ≡ a
bit_xor-zero =
    halving_induction (λ a. bit_xor a 0 ≡ a) refl (λ a h ih. omega (arith, bit_xor_step a 0, ih))

pub bit_xor_self : (a : ℕ) → bit_xor a a ≡ 0
bit_xor_self =
    halving_induction (λ a. bit_xor a a ≡ 0) refl (λ a h ih. omega (arith, bit_xor_step a a, ih))

pub zero-bit_xor : (b : ℕ) → bit_xor 0 b ≡ b
zero-bit_xor b = bit_xor-bitwise 0 b

xor_half : (a b : ℕ) → bit_xor a b / 2 ≡ bit_xor (a / 2) (b / 2)
xor_half a b = omega (arith, bit_xor_step a b)

-- Exclusive or with the same number twice changes nothing.
pub bit_xor_cancel : (a b : ℕ) → bit_xor a (bit_xor a b) ≡ b
bit_xor_cancel =
    halving_induction (λ a. (b : ℕ) → bit_xor a (bit_xor a b) ≡ b)
      (λ b. zero-bit_xor (bit_xor 0 b) ∙ zero-bit_xor b)
      λ a h ih b. omega (
        arith,
        bit_xor_step a (bit_xor a b),
        ap (bit_xor (a / 2)) (xor_half a b),
        ih (b / 2),
        bit_xor_step a b,
      )

pub eq_of_bit_xor-zero : (a b : ℕ) → bit_xor a b ≡ 0 → a ≡ b
eq_of_bit_xor-zero a b h = sym (bit_xor-zero a) ∙ ap (bit_xor a) (sym h) ∙ bit_xor_cancel a b

pub bit_xor-lt : (k a b : ℕ) → a < 2 ^ k → b < 2 ^ k → bit_xor a b < 2 ^ k
bit_xor-lt zero a b h g = ground (arith, bit_xor-zero 0)
bit_xor-lt (suc k) a b h g =
    ground (arith, pow-suc 2 k, bit_xor_step a b, bit_xor-lt k (a / 2) (b / 2))
