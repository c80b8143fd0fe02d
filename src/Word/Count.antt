-- ===== src/Word/Count.antt =====
-- Counting the bits of a word, with `nbits64` and with `trailing_zeros` of src/quaternions/bigint.rs.
use native.Mathlib.Nat.{pow-suc, zero-add}
use sqisign_selkie.Prelude.{
  ℕ, zero, suc, ◌+◌, ◌*◌, ◌/◌, ◌^◌, ◌≤◌, ◌<◌, ◌≡◌, ◌⊎◌, inl, inr, refl, arith,
}
use sqisign_selkie.Word.{
  IsWord, nonzero_bit, nbits64_loop, nbits64, trailing_zeros_loop, trailing_zeros,
}
use sqisign_selkie.Word.Laws.{nonzero_bit_lem}

-- `b` is the position of the highest bit of `x`, counted from 1; 0 where there is none.
pub record IsBitLength (x b : ℕ) : Type 0 where
  pub below : x < 2 ^ b
  pub reaches : (b ≡ 0) ⊎ (2 ^ b ≤ 2 * x)

IsBitLength-half : {x b : ℕ} → 0 < x → IsBitLength (x / 2) b → IsBitLength x (suc b)
IsBitLength-half {x} {b} h s = record {
  below = omega (arith, pow-suc 2 b, s.below);
  reaches = elim s.reaches [
    | inl z ↦ inr (rw z (omega arith))
    | inr le ↦ inr (omega (arith, pow-suc 2 b, le))
  ];
}

pub pow_pos : (k : ℕ) → 0 < 2 ^ k
pow_pos zero = omega arith
pow_pos (suc k) = omega (arith, pow-suc 2 k, pow_pos k)

nbits64_loop_value :
    (k x n : ℕ)
    → IsWord x
    → x < 2 ^ k
    → (b : ℕ) × (nbits64_loop k x n ≡ n + b) × (b ≤ k) × IsBitLength x b
unfolding nbits64_loop
nbits64_loop_value zero x n hx h =
    (0, omega arith, omega arith, record { below = h; reaches = inl refl })
nbits64_loop_value (suc k) zero n hx h =
    let (b, e, le, s) = nbits64_loop_value k 0 (n + nonzero_bit 0) hx (pow_pos k) in
    (b, omega (arith, e, nonzero_bit_lem 0 hx), omega (arith, le), s)
nbits64_loop_value (suc k) (suc x) n hx h =
    let step : n + nonzero_bit (suc x) ≡ n + 1 = grind (arith, nonzero_bit_lem (suc x) hx) in
    let (b, e, le, s) =
      nbits64_loop_value k (suc x / 2) (n + 1) (omega arith) (omega (arith, pow-suc 2 k, h)) in
    (suc b, rw step (omega (arith, e)), omega (arith, le), IsBitLength-half (omega arith) s)

-- `nbits64` is the bit length of the word.
pub nbits64_value : (x : ℕ) → IsWord x → IsBitLength x (nbits64 x) × (nbits64 x ≤ 64)
unfolding nbits64
nbits64_value x h =
    let (b, e, le, s) = nbits64_loop_value 64 x 0 h h in
    (rw e (rw zero-add s), omega (arith, e, le))

-- The sentinel at zero.
pub trailing_zeros-zero : trailing_zeros 0 ≡ 64
unfolding trailing_zeros trailing_zeros_loop
trailing_zeros-zero = refl
