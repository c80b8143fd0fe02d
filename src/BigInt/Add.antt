-- ===== src/BigInt/Add.antt =====
-- Signed addition and subtraction: src/quaternions/bigint/add.rs and sub.rs.
pub mod Cases
pub mod Value
use sqisign_selkie.Prelude.{
  ℕ, ◌-◌, ◌*◌, max, bit_and, bit_xor, length, leb, ◌==◌, if◌then◌else◌, List,
}
use sqisign_selkie.Word.{as_u64, ct_select_u64}
use sqisign_selkie.Mag.Add.{mag_add, mag_add_short}
use sqisign_selkie.Mag.Sub.{mag_sub, mag_sub_short, mag_negate}
use sqisign_selkie.Mag.Compare.{mag_is_zero, mag_select, mag_effective_len}
use sqisign_selkie.BigInt.{BigInt, wrapping_neg}

pub ct_add : BigInt → BigInt → BigInt
ct_add self rhs =
    let same_sign = as_u64 (bit_xor self.sign rhs.sign == 0) in
    let (sum, _) = mag_add self.limbs rhs.limbs in
    let (diff_a, borrow) = mag_sub self.limbs rhs.limbs in
    let self_ge = 1 - borrow in
    let diff_b = mag_negate diff_a in
    let diff_mag = mag_select diff_b diff_a self_ge in
    let diff_sign = ct_select_u64 rhs.sign self.sign self_ge in
    let result_limbs = mag_select diff_mag sum same_sign in
    let selected_sign = ct_select_u64 diff_sign self.sign same_sign in
    let is_zero = mag_is_zero result_limbs in
    let result_sign = bit_and selected_sign (1 - is_zero) in
    record { sign = result_sign; limbs = result_limbs }

-- The branch of `vt_add` on operands whose magnitudes have `la` and `lb` limbs.
pub vt_add_short : BigInt → BigInt → ℕ → ℕ → ℕ × List ℕ
vt_add_short self rhs la lb =
    if bit_xor self.sign rhs.sign == 0
    then (self.sign, (mag_add_short self.limbs rhs.limbs la lb).0)
    else let (diff, borrow) = mag_sub_short self.limbs rhs.limbs la lb in
      if borrow == 0
      then (self.sign, diff)
      else (rhs.sign, (mag_sub_short rhs.limbs self.limbs lb la).0)

pub vt_add : BigInt → BigInt → BigInt
vt_add self rhs =
    let la = mag_effective_len self.limbs in
    let lb = mag_effective_len rhs.limbs in
    let (sign, result_limbs) = vt_add_short self rhs la lb in
    let is_zero = mag_is_zero result_limbs in
    let result_sign = bit_and sign (1 - is_zero) in
    if leb (length self.limbs) (max la lb * 4)
    then ct_add self rhs
    else record { sign = result_sign; limbs = result_limbs }

pub ct_sub : BigInt → BigInt → BigInt
ct_sub self rhs = let neg_rhs = wrapping_neg rhs in ct_add self neg_rhs

pub vt_sub : BigInt → BigInt → BigInt
vt_sub self rhs = vt_add self (wrapping_neg rhs)
