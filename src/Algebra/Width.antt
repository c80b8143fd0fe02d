-- ===== src/Algebra/Width.antt =====
-- The narrower width of an element.
use sqisign_selkie.Prelude.{ℕ, ◌≤◌, ◌<◌, ◌≡◌, ◌⊎◌, refl, arith, ap₂, inl, inr, some, none}
use sqisign_selkie.Limbs.{val, cap}
use sqisign_selkie.BigInt.{IsBigInt, to_ℤ}
use sqisign_selkie.BigInt.Resize.Value.{narrow_to_value}
use sqisign_selkie.Algebra.{Element, element_narrow_to}
use sqisign_selkie.Algebra.Gaussian.{numerators}

-- The parts of an element are values of `n` limbs.
pub record IsElement (n : ℕ) (x : Element) : Type 0 where
  pub a : IsBigInt n x.a
  pub b : IsBigInt n x.b
  pub c : IsBigInt n x.c
  pub d : IsBigInt n x.d
  pub denom : IsBigInt n x.denom

-- Every part has a magnitude below the width of `t` limbs.
pub record Fits (t : ℕ) (x : Element) : Type 0 where
  pub a : val x.a.limbs < cap t
  pub b : val x.b.limbs < cap t
  pub c : val x.c.limbs < cap t
  pub d : val x.d.limbs < cap t
  pub denom : val x.denom.limbs < cap t

-- `narrow_to` of an element answers exactly where all five magnitudes fit the narrower width, with the
-- same integers.
pub element_narrow_to_value :
    (n t : ℕ) (x : Element)
    → t ≤ n
    → IsElement n x
    → (Fits t x
        × (y : Element) × (element_narrow_to t x ≡ some y)
        × (numerators y ≡ numerators x)
        × (to_ℤ y.denom ≡ to_ℤ x.denom)
        × IsElement t y)
      ⊎ ((¬ Fits t x) × (element_narrow_to t x ≡ none))
unfolding element_narrow_to
element_narrow_to_value n t x less h = elim (narrow_to_value n t x.a less h.a) [
  | inr (over, none_a) ↦ inr (λ f. absurd (omega (arith, over, f.a)), rw none_a refl)
  | inl (fits_a, a, some_a, same_a, valid_a) ↦ elim (narrow_to_value n t x.b less h.b) [
    | inr (over, none_b) ↦ inr (λ f. absurd (omega (arith, over, f.b)), rw (some_a, none_b) refl)
    | inl (fits_b, b, some_b, same_b, valid_b) ↦ elim (narrow_to_value n t x.c less h.c) [
      | inr (over, none_c) ↦
          inr (λ f. absurd (omega (arith, over, f.c)), rw (some_a, some_b, none_c) refl)
      | inl (fits_c, c, some_c, same_c, valid_c) ↦ elim (narrow_to_value n t x.d less h.d) [
        | inr (over, none_d) ↦
            inr (λ f. absurd (omega (arith, over, f.d)), rw (some_a, some_b, some_c, none_d) refl)
        | inl (fits_d, d, some_d, same_d, valid_d) ↦
            elim (narrow_to_value n t x.denom less h.denom) [
              | inr (over, none_r) ↦ inr (
                λ f. absurd (omega (arith, over, f.denom)),
                rw (some_a, some_b, some_c, some_d, none_r) refl,
              )
              | inl (fits_r, r, some_r, same_r, valid_r) ↦ inl (
                record { a = fits_a; b = fits_b; c = fits_c; d = fits_d; denom = fits_r },
                record { a = a; b = b; c = c; d = d; denom = r },
                rw (some_a, some_b, some_c, some_d, some_r) refl,
                ap₂ (λ u v. record { z = u; w = v })
                    (ap₂ (λ u v. record { re = u; im = v }) same_a same_b)
                    (ap₂ (λ u v. record { re = u; im = v }) same_c same_d),
                same_r,
                record { a = valid_a; b = valid_b; c = valid_c; d = valid_d; denom = valid_r },
              )
            ]
      ]
    ]
  ]
]
