-- ===== src/Tests/Instances.antt =====
-- The interfaces to the fields filled by the integers modulo 3.
use sqisign_selkie.Prelude.{refl}
use sqisign_selkie.Ring.{CommRing}
use sqisign_selkie.Fields.{Field}
use sqisign_selkie.Fields.Fp.{Fp, first}
use sqisign_selkie.Tests.Field3.{
  F3, f0, f1, f2, add, neg, mul, add_assoc, add_comm, add_neg, mul_assoc, mul_comm, mul_add, ct_eq,
  ct_eq_iff, from_small, one_ne_zero, invert_lem, no_root, is_square, square_root, of_root, select,
  to_bytes, of_byte, lowest_bit_neg, two_ne_zero, pow_lem, two_ne_zero,
}

abbrev pub ring3 : CommRing
ring3 = record {
  Carrier = F3;
  zero = f0;
  one = f1;
  add = add;
  sub = λ a b. add a (neg b);
  neg = neg;
  mul = mul;
  square = λ a. mul a a;
  add_assoc = add_assoc;
  add_comm = add_comm;
  zero_add = λ a. refl;
  add_neg = add_neg;
  sub_lem = λ a b. refl;
  mul_assoc = mul_assoc;
  mul_comm = mul_comm;
  one_mul = λ a. refl;
  mul_add = mul_add;
  square_lem = λ a. refl;
}

abbrev pub field3 : Field
field3 = record {
  ring = ring3;
  invert = λ x. x;
  ct_eq = ct_eq;
  from_small = from_small;
  one_ne_zero = one_ne_zero;
  invert_lem = invert_lem;
  ct_eq_iff = ct_eq_iff;
  from_small_zero = refl;
  from_small_suc = λ n. refl;
}

abbrev pub fp3 : Fp
fp3 = record {
  field = field3;
  minus_one = f2;
  minus_one_lem = refl;
  two_ne_zero = two_ne_zero;
  no_root = no_root;
  sum_of_2_products = λ a b c d. add (mul a b) (mul c d);
  sum_of_2_products_lem = λ a b c d. refl;
  difference_of_2_products = λ a b c d. add (mul a b) (neg (mul c d));
  difference_of_2_products_lem = λ a b c d. refl;
  is_square = is_square;
  is_square_iff = λ x. (λ h. (x, square_root x h), λ s. of_root s.0 x s.1);
  sqrt = λ x. x;
  sqrt_lem = square_root;
  pow_p3div4 = λ x. f1;
  pow_p3div4_lem = pow_lem;
  conditional_select = select;
  conditional_select_false = λ a b. refl;
  conditional_select_true = λ a b. refl;
  to_bytes = to_bytes;
  from_bytes = λ bytes. of_byte (first bytes);
  lowest_bit_zero = refl;
  lowest_bit_neg = lowest_bit_neg;
}
