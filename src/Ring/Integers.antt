-- ===== src/Ring/Integers.antt =====
-- The integers as a commutative ring.
use sqisign_selkie.Prelude.{refl}
use sqisign_selkie.Int.{ℤ, pos, ◌+ℤ◌, ◌-ℤ◌, ◌*ℤ◌, +ℤ-neg}
use sqisign_selkie.Int.Product.{
  +ℤ_comm, +ℤ_assoc, zero-+ℤ, +ℤ_opposite, *ℤ_comm, *ℤ_assoc, one-*ℤ, *ℤ-+ℤ,
}
use sqisign_selkie.Prelude.{sym}
use sqisign_selkie.Ring.{CommRing}

abbrev pub integers : CommRing
integers = record {
  Carrier = ℤ;
  zero = pos 0;
  one = pos 1;
  add = ◌+ℤ◌;
  sub = ◌-ℤ◌;
  neg = λ a. pos 0 -ℤ a;
  mul = ◌*ℤ◌;
  square = λ a. a *ℤ a;
  add_assoc = +ℤ_assoc;
  add_comm = +ℤ_comm;
  zero_add = zero-+ℤ;
  add_neg = +ℤ_opposite;
  sub_lem = λ a b. sym (+ℤ-neg a b);
  mul_assoc = *ℤ_assoc;
  mul_comm = *ℤ_comm;
  one_mul = one-*ℤ;
  mul_add = *ℤ-+ℤ;
  square_lem = λ a. refl;
}
