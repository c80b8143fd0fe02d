-- ===== src/Mag/Bits.antt =====
-- Bit counts of magnitudes: src/quaternions/bigint/bits.rs. The counts are at most 64 bits for each
-- limb, and so far below the bound of `u32`.
pub mod Value
use sqisign_selkie.Prelude.{
  ℕ, zero, suc, ◌+◌, ◌-◌, ◌*◌, bit_and, bit_or, List, [], ◌∷◌, length, get_or, ◌==◌, ltb,
  if◌then◌else◌,
}
use sqisign_selkie.Word.{as_u64, nonzero_bit, nbits64, trailing_zeros}

-- One round of the count: the limb at index `i` has `s` bits, and `k` is the count so far.
pub count_limb : ℕ → ℕ → ℕ → ℕ
count_limb i s k =
    let r = as_u64 (k == 0) in
    let t = r * s in let m = bit_and (as_u64 (k == 0)) (as_u64 (ltb 0 s)) in k + t + 64 * i * m

-- The loop over the limbs below index `i`, from the top.
pub mag_bitsize_loop : List ℕ → ℕ → ℕ → ℕ
mag_bitsize_loop a zero k = k
mag_bitsize_loop a (suc i) k = mag_bitsize_loop a i (count_limb i (nbits64 (get_or a i 0)) k)

pub mag_bitsize : List ℕ → ℕ
mag_bitsize a = mag_bitsize_loop a (length a) 0
