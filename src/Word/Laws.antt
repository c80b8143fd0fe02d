-- ===== src/Word/Laws.antt =====
-- The word helpers as arithmetic: selection, comparison, the product, the test for zero.
use native.Mathlib.Nat.{mul-le-mul}
use sqisign_selkie.Bits.{
  bit_or-lt, le-bit_or, mask-bit_and, zero-bit_and, bit_xor-zero, bit_xor_cancel, bit_xor-lt,
}
use sqisign_selkie.Prelude.{
  ℕ, ◌+◌, ◌-◌, ◌*◌, ◌≤◌, ◌<◌, bit_and, bit_or, bit_xor, ◌≡◌, refl, ap, ◌∙◌, arith, Bool, true,
  false, ltb, if◌then◌else◌, ◌==◌,
}
use sqisign_selkie.Word.{
  radix, IsWord, as_u64, wrapping_neg, ct_select_u64, ct_gt_u64, widening_mul, nonzero_bit,
}

pub ct_select_u64-zero : (a b : ℕ) → ct_select_u64 a b 0 ≡ a
unfolding ct_select_u64
ct_select_u64-zero a b = rw (zero-bit_and (bit_xor a b)) (bit_xor-zero a)

pub ct_select_u64-one : (a b : ℕ) → IsWord a → IsWord b → ct_select_u64 a b 1 ≡ b
unfolding ct_select_u64
ct_select_u64-one a b ha hb =
    ap (bit_xor a) (mask-bit_and 64 (bit_xor a b) ∙ omega (arith, bit_xor-lt 64 a b ha hb))
    ∙ bit_xor_cancel a b

pub ct_gt_u64_lem : (a b : ℕ) → ct_gt_u64 a b ≡ as_u64 (ltb b a)
unfolding ct_gt_u64
ct_gt_u64_lem a b = refl

-- The largest product of two words leaves room for two more words in 128 bits.
pub word_product : (a b : ℕ) → IsWord a → IsWord b → a * b + 2 * radix ≤ radix * radix + 1
word_product a b ha hb =
    let p : a * b ≤ (radix - 1) * (radix - 1) =
      mul-le-mul {n₂ = radix - 1} {m₂ = radix - 1} (omega arith) (omega arith) in
    omega arith

pub widening_mul_value :
    (a b : ℕ)
    → IsWord a
    → IsWord b
    → ((widening_mul a b).0 + radix * (widening_mul a b).1 ≡ a * b)
      × IsWord (widening_mul a b).0
      × ((widening_mul a b).1 + 1 < radix)
unfolding widening_mul
widening_mul_value a b ha hb = omega (arith, word_product a b ha hb)

pub nonzero_bit_lem : (x : ℕ) → IsWord x → nonzero_bit x ≡ (if x == 0 then 0 else 1)
unfolding nonzero_bit
nonzero_bit_lem x h = ground (arith, le-bit_or x (wrapping_neg x), bit_or-lt 64 x (wrapping_neg x))

-- A flag that is joined to nothing is itself.
pub fresh_flag : (b : Bool) → bit_or 0 (bit_and 1 (as_u64 b)) ≡ as_u64 b
fresh_flag true = refl
fresh_flag false = refl
