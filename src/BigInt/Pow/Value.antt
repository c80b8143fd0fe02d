-- ===== src/BigInt/Pow/Value.antt =====
-- Square and multiply computes the power of the integer.
use native.Mathlib.Nat.{
  mod-eq_of_lt, pow-zero, pow-suc, pow-succ', mod-add-div, add-mul-mod_self_left, mul-one,
}
use sqisign_selkie.Prelude.{
  ℕ, zero, suc, ◌+◌, ◌*◌, ◌/◌, ◌%◌, ◌^◌, ◌≤◌, ◌<◌, ◌≡◌, ◌⊎◌, inl, inr, refl, sym, ap, ap₂, ◌∙◌,
  arith, true, false, ◌==◌, bit_and, bit_xor,
}
use sqisign_selkie.Int.{signed}
use sqisign_selkie.Bits.{
  mask-bit_and, bit_and_comm, bit_and-zero, zero-bit_and, bit_xor-zero, bit_xor_self, bit_xor-lt,
}
use sqisign_selkie.Limbs.{val, cap}
use sqisign_selkie.Limbs.Laws.{length-limbs, val-lt}
use sqisign_selkie.BigInt.{BigInt, IsBigInt, to_ℤ, big_one, limb_array}
use sqisign_selkie.BigInt.Sign.{truncated-signed}
use sqisign_selkie.BigInt.From.Value.{limb_array_value}
use sqisign_selkie.BigInt.Mul.{vt_mul}
use sqisign_selkie.BigInt.Mul.Value.{signed-mul, ct_mul_value, vt_mul-eq-ct_mul}
use sqisign_selkie.BigInt.Pow.{pow_loop, pow}

-- The value has the sign `s` and the magnitude `m` modulo the bound.
record Holds (n s m : ℕ) (x : BigInt) : Type 0 where
  flag : s ≤ 1
  value : to_ℤ x ≡ signed s (m % cap n)
  valid : IsBigInt n x

mod-mul : (p q c : ℕ) → p % c * (q % c) % c ≡ p * q % c
mod-mul p q c =
    sym (add-mul-mod_self_left (p % c * (q % c)) c (p % c * (q / c) + p / c * q))
    ∙ ap (λ (t : ℕ). t % c)
        (omega (
          arith,
          ap (λ (t : ℕ). t * q) (mod-add-div p c),
          ap (λ (t : ℕ). p % c * t) (mod-add-div q c),
        ))

vt_mul-Holds :
    (n s t p q : ℕ) (x y : BigInt)
    → Holds n s p x
    → Holds n t q y
    → Holds n (bit_xor s t) (p * q) (vt_mul x y)
vt_mul-Holds n s t p q x y h g =
    let (e, valid, canonical) = ct_mul_value n x y h.valid g.valid in
    rw (vt_mul-eq-ct_mul n x y h.valid g.valid) (record {
      flag = omega (arith, bit_xor-lt 1 s t (omega (arith, h.flag)) (omega (arith, g.flag)));
      value =
          e
          ∙ (rw (h.value, g.value, signed-mul s t (p % cap n) (q % cap n) h.flag g.flag)
              (truncated-signed n (bit_xor s t) (p % cap n * (q % cap n))))
          ∙ ap (signed (bit_xor s t)) (mod-mul p q (cap n));
      valid = valid;
    })

square_pow : (q k : ℕ) → (q * q) ^ k ≡ q ^ (2 * k)
square_pow q zero =
    let none : 2 * zero ≡ 0 = omega arith in rw none (pow-zero (q * q) ∙ sym (pow-zero q))
square_pow q (suc k) =
    let two_more : 2 * suc k ≡ suc (suc (2 * k)) = omega arith in
    rw (pow-suc (q * q) k, two_more, pow-suc q (suc (2 * k)), pow-suc q (2 * k), square_pow q k)
      (omega arith)

pow_even : (q e : ℕ) → e % 2 ≡ 0 → (q * q) ^ (e / 2) ≡ q ^ e
pow_even q e h =
    let whole : 2 * (e / 2) ≡ e = omega (arith, h) in
    square_pow q (e / 2) ∙ ap (λ (t : ℕ). q ^ t) whole

pow_odd : (q e : ℕ) → e % 2 ≡ 1 → q * (q * q) ^ (e / 2) ≡ q ^ e
pow_odd q e h =
    let whole : suc (2 * (e / 2)) ≡ e = omega (arith, h) in
    ap (λ (t : ℕ). q * t) (square_pow q (e / 2))
    ∙ sym (pow-succ' q (2 * (e / 2)))
    ∙ ap (λ (t : ℕ). q ^ t) whole

parity : (e : ℕ) → (e % 2 ≡ 0) ⊎ (e % 2 ≡ 1)
parity e = ground arith

flag_bit : (t : ℕ) → t ≤ 1 → bit_and t 1 ≡ t
flag_bit t h = bit_and_comm t 1 ∙ mask-bit_and 1 t ∙ (omega (arith, h))

Holds-same : {n s s' m m' : ℕ} {x : BigInt} → s ≡ s' → m ≡ m' → Holds n s m x → Holds n s' m' x
Holds-same {n} {s} {s'} {m} {m'} {x} e f h = record {
  flag = omega (arith, e, h.flag);
  value = h.value ∙ ap₂ (λ (u v : ℕ). signed u (v % cap n)) e f;
  valid = h.valid;
}

unchanged :
    {n : ℕ} {x : BigInt} (s t p q : ℕ)
    → Holds n s p x
    → Holds n (bit_xor s (bit_and t 0)) (p * q ^ 0) x
unchanged s t p q h =
    Holds-same (sym (ap (bit_xor s) (bit_and-zero t) ∙ bit_xor-zero s))
      (sym (ap (λ (u : ℕ). p * u) (pow-zero q) ∙ mul-one p)) h

squared_sign : (s t u : ℕ) → bit_xor s (bit_and (bit_xor t t) u) ≡ s
squared_sign s t u =
    ap (λ (v : ℕ). bit_xor s (bit_and v u)) (bit_xor_self t)
    ∙ ap (bit_xor s) (zero-bit_and u)
    ∙ bit_xor-zero s

pow_loop-Holds :
    (n k s t p q e : ℕ) (r b : BigInt)
    → e < 2 ^ k
    → Holds n s p r
    → Holds n t q b
    → Holds n (bit_xor s (bit_and t (e % 2))) (p * q ^ e) (pow_loop k r b e)
unfolding pow_loop
pow_loop-Holds n zero s t p q zero r b lt h g = unchanged s t p q h
pow_loop-Holds n (suc k) s t p q zero r b lt h g = unchanged s t p q h
pow_loop-Holds n zero s t p q (suc e) r b lt h g = absurd (omega (arith, lt))
pow_loop-Holds n (suc k) s t p q (suc e) r b lt h g =
    let running : (suc e == 0) ≡ false = ground arith in
    let bit : bit_and (suc e) 1 ≡ suc e % 2 = bit_and_comm (suc e) 1 ∙ mask-bit_and 1 (suc e) in
    let fewer : suc e / 2 < 2 ^ k = omega (arith, lt, pow-suc 2 k) in
    let square = vt_mul-Holds n t t q q b b g g in
    rw running (elim (parity (suc e)) [
      | inl even ↦
          let clear : (bit_and (suc e) 1 == 1) ≡ false = ground (arith, bit, even) in
          rw clear (
            Holds-same
              (squared_sign s t (suc e / 2 % 2)
                ∙ sym (
                    ap (λ (u : ℕ). bit_xor s (bit_and t u)) even
                    ∙ ap (bit_xor s) (bit_and-zero t)
                    ∙ bit_xor-zero s))
              (ap (λ (u : ℕ). p * u) (pow_even q (suc e) even))
              (pow_loop-Holds n k s (bit_xor t t) p (q * q) (suc e / 2) r (vt_mul b b) fewer h
                square))
      | inr odd ↦
          let set : (bit_and (suc e) 1 == 1) ≡ true = ground (arith, bit, odd) in
          rw set (
            Holds-same
              (squared_sign (bit_xor s t) t (suc e / 2 % 2)
                ∙ sym (
                    ap (λ (u : ℕ). bit_xor s (bit_and t u)) odd
                    ∙ ap (bit_xor s) (flag_bit t g.flag)))
              (omega (arith, ap (λ (u : ℕ). p * u) (pow_odd q (suc e) odd)))
              (pow_loop-Holds n k (bit_xor s t) (bit_xor t t) (p * q) (q * q) (suc e / 2)
                (vt_mul r b) (vt_mul b b) fewer (vt_mul-Holds n s t p q r b h g) square))
    ])

one_mul : (m : ℕ) → 1 * m ≡ m
one_mul m = omega arith

zero_xor : (s : ℕ) → s ≤ 1 → bit_xor 0 s ≡ s
zero_xor zero h = refl
zero_xor (suc zero) h = refl
zero_xor (suc (suc s)) h = absurd (omega arith)

bit_flag : (s e : ℕ) → s ≤ 1 → bit_and s (e % 2) ≤ 1
bit_flag s e h = elim (parity e) [
  | inl even ↦ rw (even, bit_and-zero s) (omega arith)
  | inr odd ↦ rw (odd, flag_bit s h) h
]

pow-eq : (n : ℕ) (x : BigInt) (e : ℕ) → IsBigInt n x → pow x e ≡ pow_loop 32 (big_one n) x e
unfolding pow pow_loop
pow-eq n x zero h = rw (length-limbs n x.limbs h.words) refl
pow-eq n x (suc e) h =
    let running : (suc e == 0) ≡ false = ground arith in
    rw (length-limbs n x.limbs h.words, running) refl

big_one-Holds : (n : ℕ) → 0 < n → Holds n 0 1 (big_one n)
big_one-Holds n h =
    let (e, words) = limb_array_value n 1 h (omega arith) in
    let small : 1 < cap n = omega (arith, e, val-lt n (limb_array n 1) words) in
    record {
      flag = omega arith;
      value = ap (signed 0) (e ∙ sym (mod-eq_of_lt small));
      valid = record { flag = omega arith; words = words };
    }

self-Holds : (n : ℕ) (x : BigInt) → IsBigInt n x → Holds n x.sign (val x.limbs) x
self-Holds n x h = record {
  flag = h.flag;
  value = ap (signed x.sign) (sym (mod-eq_of_lt (val-lt n x.limbs h.words)));
  valid = h;
}

-- `pow` with an exponent of 32 bits, at each width of at least one limb: the magnitude is the power of
-- the magnitude modulo the bound, and the integer is negative where the base is negative and the
-- exponent odd. The loop ends within 32 rounds.
pub pow_value :
    (n e : ℕ) (x : BigInt)
    → 0 < n
    → e < 2 ^ 32
    → IsBigInt n x
    → (to_ℤ (pow x e) ≡ signed (bit_and x.sign (e % 2)) (val x.limbs ^ e % cap n))
      × IsBigInt n (pow x e)
pow_value n e x pos small h =
    let final =
      pow_loop-Holds n 32 0 x.sign 1 (val x.limbs) e (big_one n) x small (big_one-Holds n pos)
        (self-Holds n x h) in
    let sign = zero_xor (bit_and x.sign (e % 2)) (bit_flag x.sign e h.flag) in
    let result = Holds-same sign (one_mul (val x.limbs ^ e)) final in
    rw (pow-eq n x e h) (result.value, result.valid)
