-- ===== src/Fields/Fp2/Roundtrip.antt =====
-- What is read back: the even root of a square.
use sqisign_selkie.Prelude.{◌≡◌, ◌≢◌, refl, sym, ap, ◌∙◌, [], ◌∷◌, true, false, inl, inr}
use sqisign_selkie.Ring.Polynomial.{var, nil, ◌⊕◌, ◌⊖◌, ◌⊗◌, opposite, squared}
use sqisign_selkie.Ring.Sound.{solve}
use sqisign_selkie.Fields.Laws.{eq_cases, no_zero_divisors}
use sqisign_selkie.Fields.Fp.{Fp}
use sqisign_selkie.Fields.Fp2.{
  Fp2, zero as fp2_zero, square, is_square, sqrt, norm, root_is_odd, add, sub, neg, mul,
}
use sqisign_selkie.Fields.Fp2.Norm.{fp2_field, fp2_ring}
use sqisign_selkie.Fields.Fp2.Root.{square-sqrt, sqrt-even, odd-neg}

module _ (f : Fp) where
  open f.field.ring use {Carrier, zero as fp_zero, add as fp_add}

  difference_product :
      (s r : Fp2 f) → square f s ≡ square f r → mul f (sub f s r) (add f s r) ≡ fp2_zero f
  difference_product s r h =
      solve (fp2_ring f) ((var 0 ⊖ var 1) ⊗ (var 0 ⊕ var 1)) (squared (var 0) ⊖ squared (var 1))
        (s ∷ r ∷ []) refl
      ∙ ap (λ t. sub f t (square f r)) h
      ∙ solve (fp2_ring f) (squared (var 0) ⊖ squared (var 0)) nil (r ∷ []) refl

  same_or_opposite : (s r : Fp2 f) → square f s ≡ square f r → s ≢ r → s ≡ neg f r
  same_or_opposite s r h ne =
      solve (fp2_ring f) (var 0) ((var 0 ⊕ var 1) ⊖ var 1) (s ∷ r ∷ []) refl
      ∙ ap (λ t. sub f t r)
          (no_zero_divisors (fp2_field f) (sub f s r) (add f s r)
            (λ e. ne (
              solve (fp2_ring f) (var 0) ((var 0 ⊖ var 1) ⊕ var 1) (s ∷ r ∷ []) refl
              ∙ ap (λ t. add f t r) e
              ∙ solve (fp2_ring f) (nil ⊕ var 0) (var 0) (r ∷ []) refl))
            (difference_product s r h))
      ∙ solve (fp2_ring f) (nil ⊖ var 0) (opposite (var 0)) (r ∷ []) refl

  -- The square root of the square of an even element is that element, unless the formula's sum is
  -- zero.
  pub sqrt-square :
      (r : Fp2 f)
      → root_is_odd f r ≡ false
      → is_square f (square f r) ≡ true
      → fp_add (square f r).a (f.sqrt (norm f (square f r))) ≢ fp_zero
      → sqrt f (square f r) ≡ r
  sqrt-square r even h ne = elim (eq_cases (fp2_field f) (sqrt f (square f r)) r) [
    | inl e ↦ e
    | inr other ↦
        let e = same_or_opposite (sqrt f (square f r)) r (square-sqrt f (square f r) h ne) other in
        let opposite_even = sym (ap (root_is_odd f) e) ∙ sqrt-even f (square f r) in
        elim (eq_cases (fp2_field f) r (fp2_zero f)) [
          | inl is_zero ↦
              e ∙ ap (neg f) is_zero ∙ solve (fp2_ring f) (opposite nil) nil [] refl ∙ sym is_zero
          | inr ne_zero ↦ let odd = odd-neg f r ne_zero in cc
        ]
  ]
