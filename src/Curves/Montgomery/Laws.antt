-- ===== src/Curves/Montgomery/Laws.antt =====
-- The representations of the coefficient agree on every curve that is constructed.
use sqisign_selkie.Prelude.{◌≡◌, ◌≢◌, refl, sym, ap, ap₂, ◌∙◌, [], ◌∷◌, inl, inr, Bool-cases}
use sqisign_selkie.Ring.Laws.{mul_one}
use sqisign_selkie.Ring.Polynomial.{var, unit, ◌⊕◌, ◌⊖◌, ◌⊗◌}
use sqisign_selkie.Ring.Sound.{solve}
use sqisign_selkie.Fields.{Field}
use sqisign_selkie.Fields.Laws.{mul-ne_zero}
use sqisign_selkie.Curves.Montgomery.{
  ProjectiveCoefficient, DoublingConstants, Curve, normalize, doubling_from_projective,
  projective_from_doubling, projective_from_affine, curve_from_affine, curve_from_projective,
  curve_from_doubling, normalize_curve,
}

module _ (k : Field) where
  open k use {invert, ct_eq, from_small}
  open k.ring use {Carrier, zero, one, add, sub, neg, mul, square}

  abbrev pub two : Carrier
  two = add one one

  abbrev pub four : Carrier
  four = add two two

  -- The projective coefficient stands for the affine one.
  unfoldable pub Represents : ProjectiveCoefficient k → Carrier → Type 0
  Represents p a = (p.c ≢ zero) × (p.a ≡ mul a p.c)

  -- The doubling constants stand for (a + 2)/4.
  unfoldable pub Doubles : DoublingConstants k → Carrier → Type 0
  Doubles d a = (d.c24 ≢ zero) × (mul four d.a24 ≡ mul (add a two) d.c24)

  -- The three representations stand for one coefficient.
  unfoldable pub IsCurve : Curve k → Type 0
  IsCurve e = Represents e.projective e.affine × Doubles e.doubling e.affine

  small_two : from_small 2 ≡ two
  small_two =
      k.from_small_suc 1
      ∙ ap (λ t. add t one)
          (k.from_small_suc 0 ∙ ap (λ t. add t one) k.from_small_zero ∙ k.ring.zero_add one)

  pub small_four : from_small 4 ≡ four
  small_four =
      k.from_small_suc 3
      ∙ ap (λ t. add t one) (k.from_small_suc 2 ∙ ap (λ t. add t one) small_two)
      ∙ solve k.ring (((unit ⊕ unit) ⊕ unit) ⊕ unit) ((unit ⊕ unit) ⊕ (unit ⊕ unit)) [] refl

  four_ne_zero : two ≢ zero → four ≢ zero
  four_ne_zero h e =
      mul-ne_zero k two two h h
        (solve k.ring ((unit ⊕ unit) ⊗ (unit ⊕ unit)) ((unit ⊕ unit) ⊕ (unit ⊕ unit)) [] refl ∙ e)

  -- The doubling constants of a projective coefficient.
  doubling_from_projective-Doubles :
      (p : ProjectiveCoefficient k) (a : Carrier)
      → two ≢ zero
      → Represents p a
      → Doubles (doubling_from_projective k p) a
  unfolding doubling_from_projective Represents Doubles
  doubling_from_projective-Doubles p a h (ne, e) =
      let c4 = add (add p.c p.c) (add p.c p.c) in
      let c4_ne : c4 ≢ zero = λ g. mul-ne_zero k four p.c (four_ne_zero h) ne (
        solve k.ring (((unit ⊕ unit) ⊕ (unit ⊕ unit)) ⊗ var 0) ((var 0 ⊕ var 0) ⊕ (var 0 ⊕ var 0))
          (p.c ∷ []) refl
        ∙ g) in
      let j = invert c4 in
      let env = a ∷ p.c ∷ j ∷ [] in
      let n4 = (unit ⊕ unit) ⊕ (unit ⊕ unit) in
      let v = var 1 in
      (
        k.one_ne_zero,
        ap (λ t. mul four (mul (add t (add p.c p.c)) j)) e
            ∙ solve k.ring (n4 ⊗ ((var 0 ⊗ v ⊕ (v ⊕ v)) ⊗ var 2))
                ((var 0 ⊕ (unit ⊕ unit)) ⊗ (((v ⊕ v) ⊕ (v ⊕ v)) ⊗ var 2)) env refl
            ∙ ap (mul (add a two)) (k.invert_lem c4 c4_ne),
      )

  -- The constructor from an affine coefficient makes the three representations agree.
  pub curve_from_affine-IsCurve : (a : Carrier) → two ≢ zero → IsCurve (curve_from_affine k a)
  unfolding curve_from_affine IsCurve projective_from_affine Represents
  curve_from_affine-IsCurve a h =
      let represents : Represents (projective_from_affine k a) a =
        (k.one_ne_zero, sym (mul_one k.ring a)) in
      (represents, doubling_from_projective-Doubles (projective_from_affine k a) a h represents)

  -- The constructor from a projective coefficient with a denominator other than zero makes the three
  -- representations agree.
  pub curve_from_projective-IsCurve :
      (p : ProjectiveCoefficient k) → two ≢ zero → p.c ≢ zero → IsCurve (curve_from_projective k p)
  unfolding curve_from_projective IsCurve Represents
  curve_from_projective-IsCurve p h ne =
      let quotient : p.a ≡ mul (mul p.a (invert p.c)) p.c =
        sym (mul_one k.ring p.a)
        ∙ ap (mul p.a) (sym (k.invert_lem p.c ne))
        ∙ solve k.ring (var 0 ⊗ (var 1 ⊗ var 2)) (var 0 ⊗ var 2 ⊗ var 1)
            (p.a ∷ p.c ∷ invert p.c ∷ []) refl in
      let represents : Represents p (mul p.a (invert p.c)) = (ne, quotient) in
      (represents, doubling_from_projective-Doubles p (mul p.a (invert p.c)) h represents)

  -- The constructor from doubling constants with a denominator other than zero makes the three
  -- representations agree.
  pub curve_from_doubling-IsCurve :
      (d : DoublingConstants k) → d.c24 ≢ zero → IsCurve (curve_from_doubling k d)
  unfolding curve_from_doubling IsCurve Represents Doubles projective_from_doubling
  curve_from_doubling-IsCurve d ne =
      let j = invert d.c24 in
      let n2 = unit ⊕ unit in
      let n4 = n2 ⊕ n2 in
      let x = var 0 in
      let c = var 1 in
      let env = d.a24 ∷ d.c24 ∷ j ∷ [] in
      let affine = sub (mul (mul four d.a24) j) two in
      let affine_lem : sub (mul (mul (from_small 4) d.a24) j) (from_small 2) ≡ affine =
        ap₂ (λ s t. sub (mul (mul s d.a24) j) t) small_four small_two in
      let inverse = k.invert_lem d.c24 ne in
      (
        (
          ne,
          sym (
              ap (λ t. mul t d.c24) affine_lem
              ∙ solve k.ring ((n4 ⊗ x ⊗ var 2 ⊖ n2) ⊗ c) (n4 ⊗ x ⊗ (c ⊗ var 2) ⊖ n2 ⊗ c) env refl
              ∙ ap (λ t. sub (mul (mul four d.a24) t) (mul two d.c24)) inverse
              ∙ solve k.ring (n4 ⊗ x ⊗ unit ⊖ n2 ⊗ c) (((x ⊕ x) ⊕ (x ⊕ x)) ⊖ (c ⊕ c)) env refl),
        ),
        (
          ne,
          sym (
              ap (λ t. mul (add t two) d.c24) affine_lem
              ∙ solve k.ring (((n4 ⊗ x ⊗ var 2 ⊖ n2) ⊕ n2) ⊗ c) (n4 ⊗ x ⊗ (c ⊗ var 2)) env refl
              ∙ ap (mul (mul four d.a24)) inverse
              ∙ mul_one k.ring (mul four d.a24)),
        ),
      )

  -- Normalizing the constants of a curve keeps the representations in agreement and makes the
  -- denominator one.
  pub normalize_curve-IsCurve :
      (e : Curve k)
      → IsCurve e
      → IsCurve (normalize_curve k e) × ((normalize_curve k e).doubling.c24 ≡ one)
  unfolding normalize_curve normalize IsCurve Doubles
  normalize_curve-IsCurve e (represents, (ne, h)) = elim (Bool-cases (ct_eq e.doubling.c24 one)) [
    | inl g ↦ rw g ((represents, (ne, h)), (k.ct_eq_iff e.doubling.c24 one).0 g)
    | inr g ↦ rw g ((represents, (k.one_ne_zero, divided)), refl)
  ]
    where
      j : Carrier
      j = invert e.doubling.c24

      divided : mul four (mul e.doubling.a24 j) ≡ mul (add e.affine two) one
      divided =
          sym (k.ring.mul_assoc four e.doubling.a24 j)
          ∙ ap (λ t. mul t j) h
          ∙ k.ring.mul_assoc (add e.affine two) e.doubling.c24 j
          ∙ ap (mul (add e.affine two)) (k.invert_lem e.doubling.c24 ne)
