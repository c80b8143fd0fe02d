-- ===== src/BigInt/Mul/Value.antt =====
-- Signed multiplication on the integers that the values stand for, and the variable-time path.
use sqisign_selkie.Prelude.{
  ℕ, zero, suc, ◌+◌, ◌*◌, ◌≤◌, ◌≡◌, refl, sym, ap, ap₂, ◌∙◌, arith, bit_xor, length, ltb,
  if◌then◌else◌, if_either,
}
use sqisign_selkie.Int.{ℤ, pos, pos_part, neg_part, sub_ℕ, signed, ◌*ℤ◌}
use sqisign_selkie.Limbs.{val}
use sqisign_selkie.Mag.Mul.{mag_mul, mag_mul_short}
use sqisign_selkie.Mag.Mul.Value.{mag_mul_value}
use sqisign_selkie.Mag.Mul.Short.{mag_mul_short-eq-mag_mul}
use sqisign_selkie.Mag.Compare.{mag_effective_len}
use sqisign_selkie.Mag.Compare.Length.{mag_effective_len-ZeroFrom}
use sqisign_selkie.BigInt.{BigInt, IsBigInt, IsCanonical, to_ℤ, truncated, canonicalize}
use sqisign_selkie.BigInt.Sign.{canonicalize_lem, truncated-signed}
use sqisign_selkie.BigInt.Mul.{ct_mul, vt_mul}

xor_flag : (s t : ℕ) → s ≤ 1 → t ≤ 1 → bit_xor s t ≤ 1
xor_flag zero zero h g = omega arith
xor_flag zero (suc zero) h g = omega arith
xor_flag (suc zero) zero h g = omega arith
xor_flag (suc zero) (suc zero) h g = omega arith
xor_flag zero (suc (suc t)) h g = absurd (omega arith)
xor_flag (suc zero) (suc (suc t)) h g = absurd (omega arith)
xor_flag (suc (suc s)) t h g = absurd (omega arith)

minus_parts : (m : ℕ) → (pos_part (sub_ℕ 0 m) ≡ 0) × (neg_part (sub_ℕ 0 m) ≡ m)
minus_parts m = ground arith

sub_ℕ-zero : (m : ℕ) → sub_ℕ m 0 ≡ pos m
sub_ℕ-zero m = ground arith

mul_parts :
    (p q : ℤ) (a b c d : ℕ)
    → pos_part p ≡ a
    → neg_part p ≡ b
    → pos_part q ≡ c
    → neg_part q ≡ d
    → p *ℤ q ≡ sub_ℕ (a * c + b * d) (a * d + b * c)
unfolding ◌*ℤ◌
mul_parts p q a b c d ea eb ec ed =
    λ i. sub_ℕ (ea i * ec i + eb i * ed i) (ea i * ed i + eb i * ec i)

-- The sign of a product is the exclusive or of the signs.
pub signed-mul :
    (s t a b : ℕ) → s ≤ 1 → t ≤ 1 → signed s a *ℤ signed t b ≡ signed (bit_xor s t) (a * b)
signed-mul zero zero a b h g =
    mul_parts (pos a) (pos b) a 0 b 0 refl refl refl refl
    ∙ ap₂ sub_ℕ (omega arith) (omega arith)
    ∙ sub_ℕ-zero (a * b)
signed-mul zero (suc zero) a b h g =
    mul_parts (pos a) (sub_ℕ 0 b) a 0 0 b refl refl (minus_parts b).0 (minus_parts b).1
    ∙ ap₂ sub_ℕ (omega arith) (omega arith)
signed-mul (suc zero) zero a b h g =
    mul_parts (sub_ℕ 0 a) (pos b) 0 a b 0 (minus_parts a).0 (minus_parts a).1 refl refl
    ∙ ap₂ sub_ℕ (omega arith) (omega arith)
signed-mul (suc zero) (suc zero) a b h g =
    mul_parts (sub_ℕ 0 a) (sub_ℕ 0 b) 0 a 0 b (minus_parts a).0 (minus_parts a).1 (minus_parts b).0
      (minus_parts b).1
    ∙ ap₂ sub_ℕ (omega arith) (omega arith)
    ∙ sub_ℕ-zero (a * b)
signed-mul zero (suc (suc t)) a b h g = absurd (omega arith)
signed-mul (suc zero) (suc (suc t)) a b h g = absurd (omega arith)
signed-mul (suc (suc s)) t a b h g = absurd (omega arith)

ct_mul-canonicalize :
    (x y : BigInt) → ct_mul x y ≡ canonicalize (bit_xor x.sign y.sign) (mag_mul x.limbs y.limbs)
unfolding ct_mul canonicalize
ct_mul-canonicalize x y = refl

vt_mul-canonicalize :
    (x y : BigInt)
    → vt_mul x y
      ≡ canonicalize (bit_xor x.sign y.sign) (
          if ltb
            (mag_effective_len x.limbs * mag_effective_len y.limbs * 4)
            (length x.limbs * length x.limbs)
          then mag_mul_short x.limbs y.limbs (mag_effective_len x.limbs) (mag_effective_len y.limbs)
          else mag_mul x.limbs y.limbs)
unfolding vt_mul canonicalize
vt_mul-canonicalize x y = refl

-- `ct_mul` returns the canonical form of the product of the integers, with the magnitude truncated
-- to `N` limbs; the width is kept.
pub ct_mul_value :
    (n : ℕ) (x y : BigInt)
    → IsBigInt n x
    → IsBigInt n y
    → (to_ℤ (ct_mul x y) ≡ truncated n (to_ℤ x *ℤ to_ℤ y))
      × IsBigInt n (ct_mul x y)
      × IsCanonical (ct_mul x y)
ct_mul_value n x y hx hy =
    let (product, words) = mag_mul_value n x.limbs y.limbs hx.words hy.words in
    let (value, valid, canonical) =
      canonicalize_lem n (bit_xor x.sign y.sign) (mag_mul x.limbs y.limbs)
        (xor_flag x.sign y.sign hx.flag hy.flag) words in
    rw
      (
        ct_mul-canonicalize x y,
        signed-mul x.sign y.sign (val x.limbs) (val y.limbs) hx.flag hy.flag,
        truncated-signed n (bit_xor x.sign y.sign) (val x.limbs * val y.limbs),
        ← product,
      )
      (value, valid, canonical)

-- On every pair of values `vt_mul` returns what `ct_mul` does.
pub vt_mul-eq-ct_mul :
    (n : ℕ) (x y : BigInt) → IsBigInt n x → IsBigInt n y → vt_mul x y ≡ ct_mul x y
vt_mul-eq-ct_mul n x y hx hy =
    vt_mul-canonicalize x y
    ∙ ap (canonicalize (bit_xor x.sign y.sign)) (
        if_either
          (ltb (mag_effective_len x.limbs * mag_effective_len y.limbs * 4)
            (length x.limbs * length x.limbs))
          (mag_mul_short-eq-mag_mul n x.limbs y.limbs (mag_effective_len x.limbs)
            (mag_effective_len y.limbs) hx.words hy.words (mag_effective_len-ZeroFrom x.limbs)
            (mag_effective_len-ZeroFrom y.limbs)))
    ∙ sym (ct_mul-canonicalize x y)
