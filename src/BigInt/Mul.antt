-- ===== src/BigInt/Mul.antt =====
-- Signed multiplication: src/quaternions/bigint/mul.rs.
pub mod Value
use sqisign_selkie.Prelude.{ℕ, ◌-◌, ◌*◌, bit_and, bit_xor, length, ltb, if◌then◌else◌}
use sqisign_selkie.Mag.Mul.{mag_mul, mag_mul_short}
use sqisign_selkie.Mag.Compare.{mag_is_zero, mag_effective_len}
use sqisign_selkie.BigInt.{BigInt}

pub ct_mul : BigInt → BigInt → BigInt
ct_mul self rhs =
    let raw_sign = bit_xor self.sign rhs.sign in
    let result_limbs = mag_mul self.limbs rhs.limbs in
    let is_zero = mag_is_zero result_limbs in
    let result_sign = bit_and raw_sign (1 - is_zero) in
    record { sign = result_sign; limbs = result_limbs }

pub vt_mul : BigInt → BigInt → BigInt
vt_mul self rhs =
    let la = mag_effective_len self.limbs in
    let lb = mag_effective_len rhs.limbs in
    let n = length self.limbs in
    let result_limbs =
      if ltb (la * lb * 4) (n * n)
      then mag_mul_short self.limbs rhs.limbs la lb
      else mag_mul self.limbs rhs.limbs in
    let raw_sign = bit_xor self.sign rhs.sign in
    let is_zero = mag_is_zero result_limbs in
    let result_sign = bit_and raw_sign (1 - is_zero) in
    record { sign = result_sign; limbs = result_limbs }
