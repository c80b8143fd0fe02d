-- ===== src/Word.antt =====
-- `u64` arithmetic and the constant-time word helpers of src/quaternions/bigint.rs. A word is a
-- number below `radix`; every wrap-around is written out.
pub mod Laws
pub mod Count
use sqisign_selkie.Prelude.{
  ℕ, zero, suc, ◌+◌, ◌-◌, ◌*◌, ◌/◌, ◌%◌, ◌^◌, ◌<◌, bit_and, bit_or, bit_xor, Bool, true, false, ltb,
  leb,
}

abbrev pub radix : ℕ
radix = 2 ^ 64

abbrev pub IsWord : ℕ → Type 0
IsWord x = x < radix

-- `b as u64`.
abbrev pub as_u64 : Bool → ℕ
as_u64 true = 1
as_u64 false = 0

-- The standard library's operations on `u64`. `-` on ℕ stops at 0, so the modulus is added first.
abbrev pub wrapping_add : ℕ → ℕ → ℕ
wrapping_add a b = (a + b) % radix

abbrev pub wrapping_sub : ℕ → ℕ → ℕ
wrapping_sub a b = (a + radix - b) % radix

abbrev pub wrapping_neg : ℕ → ℕ
wrapping_neg a = (radix - a) % radix

abbrev pub overflowing_add : ℕ → ℕ → ℕ × Bool
overflowing_add a b = (wrapping_add a b, leb radix (a + b))

abbrev pub overflowing_sub : ℕ → ℕ → ℕ × Bool
overflowing_sub a b = (wrapping_sub a b, ltb a b)

-- `mask = choice.wrapping_neg(); a ^ (mask & (a ^ b))`
pub ct_select_u64 : ℕ → ℕ → ℕ → ℕ
ct_select_u64 a b choice = let mask = wrapping_neg choice in bit_xor a (bit_and mask (bit_xor a b))

pub ct_gt_u64 : ℕ → ℕ → ℕ
ct_gt_u64 a b = let (_, borrow) = overflowing_sub b a in as_u64 borrow

-- The low and the high word of the 128-bit product.
pub widening_mul : ℕ → ℕ → ℕ × ℕ
widening_mul a b = let full = a * b in (full % radix, full / 2 ^ 64 % radix)

-- `(x | x.wrapping_neg()) >> 63`: 1 if `x` is not zero, else 0.
pub nonzero_bit : ℕ → ℕ
nonzero_bit x = bit_or x (wrapping_neg x) / 2 ^ 63

-- The loop of `nbits64` with the number of rounds left.
pub nbits64_loop : ℕ → ℕ → ℕ → ℕ
nbits64_loop zero x n = n
nbits64_loop (suc left) x n = nbits64_loop left (x / 2) (n + nonzero_bit x)

pub nbits64 : ℕ → ℕ
nbits64 x = nbits64_loop 64 x 0

-- The loop of `trailing_zeros` at bit `i`, with the number of rounds left.
pub trailing_zeros_loop : ℕ → ℕ → ℕ → ℕ → ℕ → ℕ
trailing_zeros_loop zero x i tz found = tz + (1 - found) * 64
trailing_zeros_loop (suc left) x i tz found =
    let bit = bit_and (x / 2 ^ i) 1 in
    let m = bit_and bit (1 - found) in
    trailing_zeros_loop left x (i + 1) (tz + m * i) (bit_or found bit)

pub trailing_zeros : ℕ → ℕ
trailing_zeros x = trailing_zeros_loop 64 x 0 0 0
