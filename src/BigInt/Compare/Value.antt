-- ===== src/BigInt/Compare/Value.antt =====
-- Equality and order of values are those of the integers that they stand for.
use Prim.Native.Nat.{compare, Ordering}
use sqisign_selkie.Prelude.{
  ℕ, zero, suc, ◌+◌, ◌≤◌, ◌↔◌, ◌≡◌, arith, bit_and, bit_or, bit_xor, not, ◌&&◌, ◌==◌, ltb,
  if◌then◌else◌,
}
use sqisign_selkie.Int.{ℤ, pos_part, neg_part, signed}
use sqisign_selkie.Word.{as_u64}
use sqisign_selkie.Limbs.{val}
use sqisign_selkie.Mag.Compare.Value.{mag_is_zero_value, mag_eq_value}
use sqisign_selkie.Mag.Compare.Order.{mag_cmp_value}
use sqisign_selkie.BigInt.{BigInt, IsBigInt, to_ℤ}
use sqisign_selkie.BigInt.Sign.{sign_tests}
use sqisign_selkie.BigInt.Compare.{ct_eq, reverse, cmp}

-- The order of the integers.
abbrev pub compare_ℤ : ℤ → ℤ → Ordering
compare_ℤ a b = compare (pos_part a + neg_part b) (pos_part b + neg_part a)

cmp_of :
    (s t a b : ℕ)
    → s ≤ 1
    → t ≤ 1
    → (let a_neg = as_u64 (ltb 0 (neg_part (signed s a))) in
        let b_neg = as_u64 (ltb 0 (neg_part (signed t b))) in
        if a_neg == 0 && b_neg == 0
        then (if as_u64 (a == 0) == 1 && as_u64 (b == 0) == 1 then Ordering.eq else compare a b)
        else if a_neg == 1 && b_neg == 1
        then reverse (compare a b)
        else if a_neg == 1
        then Ordering.lt
        else Ordering.gt)
      ≡ compare_ℤ (signed s a) (signed t b)
unfolding reverse
cmp_of zero zero a b hs ht = ground arith
cmp_of zero (suc zero) a b hs ht = ground arith
cmp_of (suc zero) zero a b hs ht = ground arith
cmp_of (suc zero) (suc zero) a b hs ht = ground arith
cmp_of zero (suc (suc t)) a b hs ht = absurd (omega arith)
cmp_of (suc zero) (suc (suc t)) a b hs ht = absurd (omega arith)
cmp_of (suc (suc s)) t a b hs ht = absurd (omega arith)

-- `cmp` is the order of the integers, also where a zero carries a sign.
pub cmp_value :
    (n : ℕ) (x y : BigInt) → IsBigInt n x → IsBigInt n y → cmp x y ≡ compare_ℤ (to_ℤ x) (to_ℤ y)
unfolding cmp
cmp_value n x y hx hy =
    rw
      (
        (sign_tests n x hx).1,
        (sign_tests n y hy).1,
        mag_is_zero_value x.limbs,
        mag_is_zero_value y.limbs,
        mag_cmp_value n x.limbs y.limbs hx.words hy.words,
      )
      (cmp_of x.sign y.sign (val x.limbs) (val y.limbs) hx.flag hy.flag)

ct_eq_of :
    (s t a b : ℕ)
    → s ≤ 1
    → t ≤ 1
    → (as_u64 (
          not (
            bit_or
              (bit_and (as_u64 (a == 0)) (as_u64 (b == 0)))
              (bit_and (as_u64 (bit_xor s t == 0)) (as_u64 (a == b)))
            == 0))
        ≡ 1)
      ↔ (signed s a ≡ signed t b)
ct_eq_of zero zero a b hs ht = ground arith
ct_eq_of zero (suc zero) a b hs ht = ground arith
ct_eq_of (suc zero) zero a b hs ht = ground arith
ct_eq_of (suc zero) (suc zero) a b hs ht = ground arith
ct_eq_of zero (suc (suc t)) a b hs ht = absurd (omega arith)
ct_eq_of (suc zero) (suc (suc t)) a b hs ht = absurd (omega arith)
ct_eq_of (suc (suc s)) t a b hs ht = absurd (omega arith)

-- Two values are `==` exactly when they stand for one integer.
pub ct_eq_value :
    (n : ℕ) (x y : BigInt) → IsBigInt n x → IsBigInt n y → (ct_eq x y ≡ 1) ↔ (to_ℤ x ≡ to_ℤ y)
unfolding ct_eq
ct_eq_value n x y hx hy =
    rw
      (
        mag_is_zero_value x.limbs,
        mag_is_zero_value y.limbs,
        mag_eq_value n x.limbs y.limbs hx.words hy.words,
      )
      (ct_eq_of x.sign y.sign (val x.limbs) (val y.limbs) hx.flag hy.flag)
