-- ===== src/BigInt/Bits/Valuation.antt =====
-- The two counts of trailing zero bits, `trailing_zeros` and `two_adic_val`.
use sqisign_selkie.Prelude.{ℕ, zero, suc, ◌+◌, ◌*◌, ◌≡◌, ◌⊎◌, inl, inr, refl, arith, List, [], ◌∷◌}
use sqisign_selkie.Word.{IsWord, nonzero_bit, trailing_zeros as limb_trailing_zeros}
use sqisign_selkie.Word.Laws.{nonzero_bit_lem}
use sqisign_selkie.Word.Count.{trailing_zeros-zero}
use sqisign_selkie.Limbs.{IsLimbs}
use sqisign_selkie.BigInt.{BigInt, IsBigInt}
use sqisign_selkie.BigInt.Bits.{
  trailing_zeros_loop, trailing_zeros, two_adic_val_loop, two_adic_val,
}

nonzero_bit_cases : (x : ℕ) → IsWord x → ((x ≡ 0) × (nonzero_bit x ≡ 0)) ⊎ (nonzero_bit x ≡ 1)
nonzero_bit_cases zero w = inl (refl, nonzero_bit_lem 0 w)
nonzero_bit_cases (suc x) w = inr (ground (arith, nonzero_bit_lem (suc x) w))

no_round : (k t : ℕ) → k + 0 * t ≡ k
no_round k t = omega arith

-- Behind the lowest limb that is not zero nothing is counted any more.
trailing_zeros_loop_done :
    (n : ℕ) (a : List ℕ) (i k : ℕ) → IsLimbs n a → trailing_zeros_loop a i k 1 ≡ k
unfolding trailing_zeros_loop
trailing_zeros_loop_done zero [] i k h = omega arith
trailing_zeros_loop_done zero (x ∷ a) i k h = elim h [ ]
trailing_zeros_loop_done (suc n) [] i k h = elim h [ ]
trailing_zeros_loop_done (suc n) (x ∷ a) i k (w, h) = elim (nonzero_bit_cases x w) [
  | inl (z, e) ↦
      rw e (
        rw (no_round k (64 * i + limb_trailing_zeros x)) (trailing_zeros_loop_done n a (i + 1) k h))
  | inr e ↦
      rw e (
        rw (no_round k (64 * i + limb_trailing_zeros x)) (trailing_zeros_loop_done n a (i + 1) k h))
]

two_adic_val_loop_done : (n : ℕ) (a : List ℕ) (k : ℕ) → IsLimbs n a → two_adic_val_loop a k 0 ≡ k
unfolding two_adic_val_loop
two_adic_val_loop_done zero [] k h = refl
two_adic_val_loop_done zero (x ∷ a) k h = elim h [ ]
two_adic_val_loop_done (suc n) [] k h = elim h [ ]
two_adic_val_loop_done (suc n) (x ∷ a) k (w, h) =
    let rest = two_adic_val_loop_done n a k h in
    elim (nonzero_bit_cases x w) [
      | inl (z, e) ↦ rw (e, no_round k (limb_trailing_zeros x)) rest
      | inr e ↦ rw (e, no_round k (limb_trailing_zeros x)) rest
    ]

two_adic_val_loop-eq-trailing_zeros_loop :
    (n : ℕ) (a : List ℕ) (i : ℕ)
    → IsLimbs n a
    → two_adic_val_loop a (64 * i) 1 ≡ trailing_zeros_loop a i 0 0
unfolding two_adic_val_loop trailing_zeros_loop
two_adic_val_loop-eq-trailing_zeros_loop zero [] i h = omega arith
two_adic_val_loop-eq-trailing_zeros_loop zero (x ∷ a) i h = elim h [ ]
two_adic_val_loop-eq-trailing_zeros_loop (suc n) [] i h = elim h [ ]
two_adic_val_loop-eq-trailing_zeros_loop (suc n) (x ∷ a) i (w, h) =
    let next : 64 * i + 1 * 64 ≡ 64 * (i + 1) = omega arith in
    let t = limb_trailing_zeros x in
    elim (nonzero_bit_cases x w) [
      | inl (z, e) ↦
          rw (e, z, trailing_zeros-zero, no_round 0 (64 * i + 64), next)
            (two_adic_val_loop-eq-trailing_zeros_loop n a (i + 1) h)
      | inr e ↦
          rw (e, two_adic_val_loop_done n a (64 * i + 1 * t) h)
            (rw (trailing_zeros_loop_done n a (i + 1) (0 + 1 * (64 * i + t)) h) (omega arith))
    ]

-- `two_adic_val` is `trailing_zeros`, on a zero too, where both are 64 for each limb.
pub two_adic_val-eq-trailing_zeros :
    (n : ℕ) (x : BigInt) → IsBigInt n x → two_adic_val x ≡ trailing_zeros x
unfolding two_adic_val trailing_zeros
two_adic_val-eq-trailing_zeros n x h = two_adic_val_loop-eq-trailing_zeros_loop n x.limbs 0 h.words
