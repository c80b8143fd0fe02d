-- ===== src/BigInt/Sign.antt =====
-- The sign tests, the absolute value, negation and the canonical form of zero.
use native.Mathlib.Nat.{zero-mod, mod-eq_of_lt}
use sqisign_selkie.Prelude.{
  ℕ, zero, suc, ◌-◌, ◌%◌, ◌≤◌, ◌<◌, ◌≡◌, refl, ap, ◌∙◌, arith, bit_and, bit_xor, List, ◌==◌,
  if◌then◌else◌, ltb,
}
use sqisign_selkie.Int.{ℤ, pos, negsuc, pos_part, neg_part, abs_ℤ, signed, sub_ℕ, ◌-ℤ◌}
use sqisign_selkie.Word.{as_u64}
use sqisign_selkie.Limbs.{IsLimbs, val, cap}
use sqisign_selkie.Mag.Compare.Value.{mag_is_zero_value, or_limbs_value}
use sqisign_selkie.BigInt.{
  BigInt, IsBigInt, IsCanonical, to_ℤ, is_zero, is_negative, is_positive, normalize, wrapping_neg,
  canonicalize, truncated,
}

pub masked_sign : (s m : ℕ) → s ≤ 1 → bit_and s (1 - as_u64 (m == 0)) ≡ (if m == 0 then 0 else s)
masked_sign zero zero h = ground arith
masked_sign zero (suc m) h = ground arith
masked_sign (suc zero) zero h = ground arith
masked_sign (suc zero) (suc m) h = ground arith
masked_sign (suc (suc s)) m h = absurd (omega arith)

signed_masked : (s m : ℕ) → signed (if m == 0 then 0 else s) m ≡ signed s m
signed_masked zero zero = refl
signed_masked (suc s) zero = refl
signed_masked s (suc m) = ground arith

pub canonicalize-sign :
    (s : ℕ) (a : List ℕ) → s ≤ 1 → (canonicalize s a).sign ≡ (if val a == 0 then 0 else s)
unfolding canonicalize
canonicalize-sign s a hs = rw (mag_is_zero_value a) (masked_sign s (val a) hs)

pub canonicalize-limbs : (s : ℕ) (a : List ℕ) → (canonicalize s a).limbs ≡ a
unfolding canonicalize
canonicalize-limbs s a = refl

-- Clearing the sign of a zero magnitude keeps the integer, and the result is canonical.
pub canonicalize_lem :
    (n s : ℕ) (a : List ℕ)
    → s ≤ 1
    → IsLimbs n a
    → (to_ℤ (canonicalize s a) ≡ signed s (val a))
      × IsBigInt n (canonicalize s a)
      × IsCanonical (canonicalize s a)
unfolding canonicalize
canonicalize_lem n s a hs ha =
    let e = canonicalize-sign s a hs in
    (
      rw e (signed_masked s (val a)),
      record { flag = rw e (ground arith); words = ha },
      rw e (ground arith),
    )

pub canonicalize_valid :
    (n s : ℕ) (a : List ℕ)
    → s ≤ 1
    → IsLimbs n a
    → IsBigInt n (canonicalize s a) × IsCanonical (canonicalize s a)
canonicalize_valid n s a hs ha =
    let (_, valid, canonical) = canonicalize_lem n s a hs ha in (valid, canonical)

pub wrapping_neg-canonicalize :
    (x : BigInt) → wrapping_neg x ≡ canonicalize (bit_xor x.sign 1) x.limbs
unfolding wrapping_neg canonicalize
wrapping_neg-canonicalize x = refl

flipped_flag : (s : ℕ) → s ≤ 1 → bit_xor s 1 ≤ 1
flipped_flag zero h = omega arith
flipped_flag (suc zero) h = omega arith
flipped_flag (suc (suc s)) h = absurd (omega arith)

signed-flip : (s m : ℕ) → s ≤ 1 → signed (bit_xor s 1) m ≡ pos 0 -ℤ signed s m
unfolding ◌-ℤ◌
signed-flip zero m h = ground arith
signed-flip (suc zero) m h = ground arith
signed-flip (suc (suc s)) m h = absurd (omega arith)

-- Negation keeps the width, flips the integer and leaves a canonical value.
pub wrapping_neg_lem :
    (n : ℕ) (x : BigInt)
    → IsBigInt n x
    → (to_ℤ (wrapping_neg x) ≡ pos 0 -ℤ to_ℤ x)
      × IsBigInt n (wrapping_neg x)
      × IsCanonical (wrapping_neg x)
wrapping_neg_lem n x h =
    let (value, valid, canonical) =
      canonicalize_lem n (bit_xor x.sign 1) x.limbs (flipped_flag x.sign h.flag) h.words in
    rw (wrapping_neg-canonicalize x)
      (value ∙ signed-flip x.sign (val x.limbs) h.flag, valid, canonical)

sign_tests_of :
    (s m : ℕ)
    → s ≤ 1
    → (as_u64 (m == 0) ≡ as_u64 (abs_ℤ (signed s m) == 0))
      × (bit_and (bit_and s 1) (1 - as_u64 (m == 0)) ≡ as_u64 (ltb 0 (neg_part (signed s m))))
      × (bit_and (1 - bit_and s 1) (1 - as_u64 (m == 0)) ≡ as_u64 (ltb 0 (pos_part (signed s m))))
sign_tests_of zero zero h = ground arith
sign_tests_of zero (suc m) h = ground arith
sign_tests_of (suc zero) zero h = ground arith
sign_tests_of (suc zero) (suc m) h = ground arith
sign_tests_of (suc (suc s)) m h = absurd (omega arith)

-- Each of the three sign tests is set exactly when the integer is 0, below 0 and above 0.
pub sign_tests :
    (n : ℕ) (x : BigInt)
    → IsBigInt n x
    → (is_zero x ≡ as_u64 (abs_ℤ (to_ℤ x) == 0))
      × (is_negative x ≡ as_u64 (ltb 0 (neg_part (to_ℤ x))))
      × (is_positive x ≡ as_u64 (ltb 0 (pos_part (to_ℤ x))))
unfolding is_zero is_negative is_positive
sign_tests n x h = rw (or_limbs_value x.limbs) (sign_tests_of x.sign (val x.limbs) h.flag)

normalize-canonicalize : (x : BigInt) → normalize x ≡ canonicalize x.sign x.limbs
unfolding normalize canonicalize is_zero
normalize-canonicalize x = rw (or_limbs_value x.limbs, mag_is_zero_value x.limbs)

-- `normalize` keeps the integer and makes the value canonical.
pub normalize_lem :
    (n : ℕ) (x : BigInt)
    → IsBigInt n x
    → (to_ℤ (normalize x) ≡ to_ℤ x) × IsBigInt n (normalize x) × IsCanonical (normalize x)
normalize_lem n x h =
    rw (normalize-canonicalize x) (canonicalize_lem n x.sign x.limbs h.flag h.words)

signed_negsuc : (m : ℕ) → sub_ℕ 0 (suc m) ≡ negsuc m
signed_negsuc m = ground arith

-- Truncation acts on the magnitude, and does nothing to a magnitude that fits.
pub truncated-signed : (n s m : ℕ) → truncated n (signed s m) ≡ signed s (m % cap n)
truncated-signed n zero m = refl
truncated-signed n (suc s) zero = rw (zero-mod (cap n))
truncated-signed n (suc s) (suc m) = rw (signed_negsuc m) refl

pub truncated_fits : (n : ℕ) (a : ℤ) → abs_ℤ a < cap n → truncated n a ≡ a
truncated_fits n (pos m) h = ap pos (mod-eq_of_lt {n = m} {m = cap n} (omega arith))
truncated_fits n (negsuc m) h =
    rw (mod-eq_of_lt {n = suc m} {m = cap n} (omega arith)) (signed_negsuc m)
