-- ===== src/BigInt/Compare.antt =====
-- Equality, order and selection of values: src/quaternions/bigint/cmp.rs and ct.rs.
pub mod Value
use Prim.Native.Nat.{Ordering}
use sqisign_selkie.Prelude.{ℕ, ◌-◌, bit_and, bit_or, bit_xor, Bool, not, ◌&&◌, ◌==◌, if◌then◌else◌}
use sqisign_selkie.Word.{as_u64, ct_select_u64}
use sqisign_selkie.Mag.Compare.{mag_is_zero, mag_eq, mag_cmp, mag_select}
use sqisign_selkie.BigInt.{BigInt, is_negative}

-- `ct_eq`, which `==` goes by.
pub ct_eq : BigInt → BigInt → ℕ
ct_eq self other =
    let both_zero = bit_and (mag_is_zero self.limbs) (mag_is_zero other.limbs) in
    let same_sign = as_u64 (bit_xor self.sign other.sign == 0) in
    let same_mag = mag_eq self.limbs other.limbs in
    as_u64 (not (bit_or both_zero (bit_and same_sign same_mag) == 0))

pub reverse : Ordering → Ordering
reverse Ordering.lt = Ordering.gt
reverse Ordering.eq = Ordering.eq
reverse Ordering.gt = Ordering.lt

pub cmp : BigInt → BigInt → Ordering
cmp self other =
    let a_neg = is_negative self in
    let b_neg = is_negative other in
    let a_zero = mag_is_zero self.limbs in
    let b_zero = mag_is_zero other.limbs in
    let magnitudes = mag_cmp self.limbs other.limbs in
    if a_neg == 0 && b_neg == 0
    then (if a_zero == 1 && b_zero == 1 then Ordering.eq else magnitudes)
    else if a_neg == 1 && b_neg == 1
    then reverse magnitudes
    else if a_neg == 1
    then Ordering.lt
    else Ordering.gt

pub conditional_select : BigInt → BigInt → ℕ → BigInt
conditional_select a b choice = record {
  sign = ct_select_u64 a.sign b.sign choice;
  limbs = mag_select a.limbs b.limbs choice;
}
