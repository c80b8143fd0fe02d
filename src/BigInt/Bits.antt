-- ===== src/BigInt/Bits.antt =====
-- Bit counts and parity of values: src/quaternions/bigint/bits.rs.
pub mod Value
pub mod Valuation
use sqisign_selkie.Prelude.{
  ℕ, suc, ◌+◌, ◌-◌, ◌*◌, List, [], ◌∷◌, bit_and, bit_or, length, get_or, ◌==◌,
}
use sqisign_selkie.Word.{as_u64, nonzero_bit, trailing_zeros as limb_trailing_zeros}
use sqisign_selkie.Mag.Bits.{mag_bitsize_loop}
use sqisign_selkie.BigInt.{BigInt}

-- The body of `mag_bitsize` stands here once more in the source.
pub bitsize : BigInt → ℕ
bitsize self = mag_bitsize_loop self.limbs (length self.limbs) 0

-- The parity of limb 0; the width is at least 1.
pub is_even : BigInt → ℕ
is_even self = as_u64 (bit_and (get_or self.limbs 0 0) 1 == 0)

pub is_odd : BigInt → ℕ
is_odd self = bit_and (get_or self.limbs 0 0) 1

-- The loop of `trailing_zeros` over the limbs from index `i` on.
pub trailing_zeros_loop : List ℕ → ℕ → ℕ → ℕ → ℕ
trailing_zeros_loop [] i k found = k + (1 - found) * (64 * i)
trailing_zeros_loop (limb ∷ rest) i k found =
    let tz = limb_trailing_zeros limb in
    let limb_nz = nonzero_bit limb in
    let m = bit_and limb_nz (1 - found) in
    trailing_zeros_loop rest (i + 1) (k + m * (64 * i + tz)) (bit_or found limb_nz)

pub trailing_zeros : BigInt → ℕ
trailing_zeros self = trailing_zeros_loop self.limbs 0 0 0

-- The loop of `two_adic_val` over the limbs that are left.
pub two_adic_val_loop : List ℕ → ℕ → ℕ → ℕ
two_adic_val_loop [] count still_zero = count
two_adic_val_loop (limb ∷ rest) count still_zero =
    let limb_nonzero = nonzero_bit limb in
    let tz = limb_trailing_zeros limb in
    two_adic_val_loop rest (count + still_zero * tz) (bit_and still_zero (1 - limb_nonzero))

pub two_adic_val : BigInt → ℕ
two_adic_val self = two_adic_val_loop self.limbs 0 1
