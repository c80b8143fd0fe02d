-- ===== src/BigInt/Shift.antt =====
-- Shifts of values: the `Shr` and `Shl` impls of src/quaternions/bigint/shift.rs.
pub mod Value
use sqisign_selkie.Prelude.{ℕ, ◌-◌, bit_and}
use sqisign_selkie.Mag.Shift.{mag_shr, mag_shl}
use sqisign_selkie.Mag.Compare.{mag_is_zero}
use sqisign_selkie.BigInt.{BigInt}

pub shr : BigInt → ℕ → BigInt
shr self rhs =
    let limbs = mag_shr self.limbs rhs in
    let is_zero = mag_is_zero limbs in
    record { sign = bit_and self.sign (1 - is_zero); limbs = limbs }

pub shl : BigInt → ℕ → BigInt
shl self rhs = let limbs = mag_shl self.limbs rhs in record { sign = self.sign; limbs = limbs }
