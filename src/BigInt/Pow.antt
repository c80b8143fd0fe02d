-- ===== src/BigInt/Pow.antt =====
-- Powers: src/quaternions/bigint/pow.rs.
pub mod Value
use sqisign_selkie.Prelude.{ℕ, zero, suc, ◌/◌, bit_and, length, Bool, ◌==◌, if◌then◌else◌}
use sqisign_selkie.BigInt.{BigInt, big_one}
use sqisign_selkie.BigInt.Mul.{vt_mul}

-- The loop `while e > 0` with a bound on the rounds left; a `u32` has 32 bits.
pub pow_loop : ℕ → BigInt → BigInt → ℕ → BigInt
pow_loop zero result base e = result
pow_loop (suc left) result base e =
    let result' = if bit_and e 1 == 1 then vt_mul result base else result in
    let base' = vt_mul base base in
    let rest = pow_loop left result' base' (e / 2) in if e == 0 then result else rest

pub pow : BigInt → ℕ → BigInt
pow self exp =
    let one = big_one (length self.limbs) in
    let rest = pow_loop 32 one self exp in if exp == 0 then one else rest
