-- ===== src/Curves/Point/Laws.antt =====
-- The arithmetic of the x-line: doubling against the formula of the curve, its variants against each
-- other, differential addition, and the quadratic of the sum and the difference.
use sqisign_selkie.Prelude.{◌≡◌, refl, sym, ap, ap₂, ◌∙◌, [], ◌∷◌}
use sqisign_selkie.Ring.Laws.{mul_one}
use sqisign_selkie.Ring.Polynomial.{var, unit, nil, ◌⊕◌, ◌⊖◌, ◌⊗◌, squared}
use sqisign_selkie.Ring.Sound.{solve}
use sqisign_selkie.Fields.{Field}
use sqisign_selkie.Curves.Montgomery.Laws.{IsCurve, Doubles, Represents, two, four}
use sqisign_selkie.Curves.Point.{
  ProjectiveXOnlyPoint, double, double_unnormalized, double_e0, differential_add,
  differential_double_add, projective_difference, b_xx, b_xz, b_zz,
}

module _ (k : Field) where
  open k.ring use {Carrier, zero, one, add, sub, neg, mul, square}

  -- The factors of the coordinates of a double point: (X² − Z²)² and 4·X·Z·(X² + A·X·Z + Z²).
  abbrev pub numerator : Carrier → Carrier → Carrier
  numerator x z = square (sub (square x) (square z))

  abbrev pub denominator : Carrier → Carrier → Carrier → Carrier
  denominator a x z =
      mul (mul (four k) (mul x z)) (add (add (square x) (mul a (mul x z))) (square z))

  -- Doubling a point on a curve whose constants agree with its coefficient gives the coordinates of
  -- the doubling formula of the curve, each times the denominator of the constants.
  pub double_value :
      (p : ProjectiveXOnlyPoint k)
      → IsCurve k p.curve
      → ((double k p).x ≡ mul (numerator p.x p.z) p.curve.doubling.c24)
        × ((double k p).z ≡ mul (denominator p.curve.affine p.x p.z) p.curve.doubling.c24)
  unfolding double IsCurve Doubles
  double_value p (represents, (ne, h)) =
      let x = var 0 in
      let z = var 1 in
      let a = var 2 in
      let a24 = var 3 in
      let c24 = var 4 in
      let n2 = unit ⊕ unit in
      let n4 = n2 ⊕ n2 in
      let env = p.x ∷ p.z ∷ p.curve.affine ∷ p.curve.doubling.a24 ∷ p.curve.doubling.c24 ∷ [] in
      let t0 = squared (x ⊕ z) in
      let t1 = squared (x ⊖ z) in
      let xz4 = n4 ⊗ (x ⊗ z) in
      (
        solve k.ring (t0 ⊗ (t1 ⊗ c24)) (squared (squared x ⊖ squared z) ⊗ c24) env refl,
        solve k.ring ((t0 ⊖ t1) ⊗ ((t0 ⊖ t1) ⊗ a24 ⊕ t1 ⊗ c24))
              (xz4 ⊗ (x ⊗ z) ⊗ (n4 ⊗ a24) ⊕ xz4 ⊗ t1 ⊗ c24) env refl
            ∙ ap
                (λ t. add (mul (mul (mul (four k) (mul p.x p.z)) (mul p.x p.z)) t) (
                  mul (mul (mul (four k) (mul p.x p.z)) (square (sub p.x p.z)))
                    p.curve.doubling.c24))
                h
            ∙ solve k.ring (xz4 ⊗ (x ⊗ z) ⊗ ((a ⊕ n2) ⊗ c24) ⊕ xz4 ⊗ t1 ⊗ c24)
                (xz4 ⊗ ((squared x ⊕ a ⊗ (x ⊗ z)) ⊕ squared z) ⊗ c24) env refl,
      )

  -- On a curve with normalized constants the doubling by the projective coefficient gives the
  -- coordinates of the usual doubling, each times 4·C.
  pub double_unnormalized-double :
      (p : ProjectiveXOnlyPoint k)
      → IsCurve k p.curve
      → p.curve.doubling.c24 ≡ one
      → let c4 = mul (four k) p.curve.projective.c in
        ((double_unnormalized k p).x ≡ mul c4 (double k p).x)
        × ((double_unnormalized k p).z ≡ mul c4 (double k p).z)
  unfolding double_unnormalized Represents IsCurve
  double_unnormalized-double p h normalized =
      let (dx, dz) = double_value p h in
      let x = var 0 in
      let z = var 1 in
      let a = var 2 in
      let c = var 3 in
      let n2 = unit ⊕ unit in
      let n4 = n2 ⊕ n2 in
      let env = p.x ∷ p.z ∷ p.curve.affine ∷ p.curve.projective.c ∷ [] in
      let t0 = squared (x ⊕ z) in
      let t1 = squared (x ⊖ z) in
      let c4 = (c ⊕ c) ⊕ (c ⊕ c) in
      let num = numerator p.x p.z in
      let den = denominator p.curve.affine p.x p.z in
      let t2 = sub (square (add p.x p.z)) (square (sub p.x p.z)) in
      let kc = p.curve.projective.c in
      let kc4 = add (add kc kc) (add kc kc) in
      (
        solve k.ring (t0 ⊗ (t1 ⊗ c4)) (n4 ⊗ c ⊗ squared (squared x ⊖ squared z)) env refl
            ∙ ap (mul (mul (four k) kc)) (sym (dx ∙ ap (mul num) normalized ∙ mul_one k.ring num)),
        ap (λ t. mul t2 (add (mul t2 (add t (add kc kc))) (mul (square (sub p.x p.z)) kc4))) h.0.1
            ∙ solve k.ring ((t0 ⊖ t1) ⊗ ((t0 ⊖ t1) ⊗ (a ⊗ c ⊕ (c ⊕ c)) ⊕ t1 ⊗ c4))
                (n4 ⊗ c ⊗ (n4 ⊗ (x ⊗ z) ⊗ ((squared x ⊕ a ⊗ (x ⊗ z)) ⊕ squared z))) env refl
            ∙ ap (mul (mul (four k) kc)) (sym (dz ∙ ap (mul den) normalized ∙ mul_one k.ring den)),
      )

  -- On a curve with coefficient zero and normalized constants the special doubling gives twice the
  -- coordinates of the usual doubling.
  pub double_e0-double :
      (p : ProjectiveXOnlyPoint k)
      → IsCurve k p.curve
      → p.curve.affine ≡ zero
      → p.curve.doubling.c24 ≡ one
      → ((double_e0 k p).x ≡ mul (two k) (double k p).x)
        × ((double_e0 k p).z ≡ mul (two k) (double k p).z)
  unfolding double_e0
  double_e0-double p h none normalized =
      let (dx, dz) = double_value p h in
      let x = var 0 in
      let z = var 1 in
      let n2 = unit ⊕ unit in
      let n4 = n2 ⊕ n2 in
      let env = p.x ∷ p.z ∷ [] in
      let t0 = squared (x ⊕ z) in
      let t1 = squared (x ⊖ z) in
      let num = numerator p.x p.z in
      let den = denominator zero p.x p.z in
      (
        solve k.ring (t0 ⊗ (t1 ⊕ t1)) (n2 ⊗ squared (squared x ⊖ squared z)) env refl
            ∙ ap (mul (two k)) (sym (dx ∙ ap (mul num) normalized ∙ mul_one k.ring num)),
        solve k.ring ((t0 ⊖ t1) ⊗ ((t1 ⊕ t1) ⊕ (t0 ⊖ t1)))
              (n2 ⊗ (n4 ⊗ (x ⊗ z) ⊗ ((squared x ⊕ nil ⊗ (x ⊗ z)) ⊕ squared z))) env refl
            ∙ ap (mul (two k)) (
                sym (
                  dz
                  ∙ ap₂ (λ s t. mul (denominator s p.x p.z) t) none normalized
                  ∙ mul_one k.ring den)),
      )

  -- The combined step gives the double point and the differential sum.
  pub differential_double_add_lem :
      (p q d : ProjectiveXOnlyPoint k)
      → differential_double_add k p q d ≡ (double k p, differential_add k p q d)
  unfolding differential_double_add double differential_add
  differential_double_add_lem p q d = refl

  -- The coordinates of the differential sum: those of the quotient of the squares of
  -- X·X' − Z·Z' and X·Z' − Z·X' by the difference, each times 4.
  pub differential_add_value :
      (p q d : ProjectiveXOnlyPoint k)
      → ((differential_add k p q d).x
          ≡ mul (four k) (mul d.z (square (sub (mul p.x q.x) (mul p.z q.z)))))
        × ((differential_add k p q d).z
            ≡ mul (four k) (mul d.x (square (sub (mul p.x q.z) (mul p.z q.x)))))
  unfolding differential_add
  differential_add_value p q d =
      let x = var 0 in
      let z = var 1 in
      let u = var 2 in
      let v = var 3 in
      let n2 = unit ⊕ unit in
      let n4 = n2 ⊕ n2 in
      let t0 = (x ⊕ z) ⊗ (u ⊖ v) in
      let t1 = (x ⊖ z) ⊗ (u ⊕ v) in
      let env = p.x ∷ p.z ∷ q.x ∷ q.z ∷ [] in
      (
        solve k.ring (var 4 ⊗ squared (t0 ⊕ t1)) (n4 ⊗ (var 4 ⊗ squared (x ⊗ u ⊖ z ⊗ v)))
            (p.x ∷ p.z ∷ q.x ∷ q.z ∷ d.z ∷ []) refl,
        solve k.ring (var 4 ⊗ squared (t0 ⊖ t1)) (n4 ⊗ (var 4 ⊗ squared (x ⊗ v ⊖ z ⊗ u)))
            (p.x ∷ p.z ∷ q.x ∷ q.z ∷ d.x ∷ []) refl,
      )

  -- The difference point is a root of the quadratic of the sum and the difference, where the square
  -- root of the discriminant is one.
  pub projective_difference_root :
      (conjugate sqrt : Carrier → Carrier) (p q : ProjectiveXOnlyPoint k)
      → let xx = b_xx k conjugate p q in
        let xz = b_xz k conjugate p q in
        let zz = b_zz k conjugate p q in
        let discriminant = sub (square xz) (mul xx zz) in
        square (sqrt discriminant) ≡ discriminant
        → let r = projective_difference k conjugate sqrt p q in
          add (mul zz (square r.x)) (mul xx (square r.z)) ≡ mul (mul (two k) xz) (mul r.x r.z)
  unfolding projective_difference
  projective_difference_root conjugate sqrt p q h =
      let xx = b_xx k conjugate p q in
      let xz = b_xz k conjugate p q in
      let zz = b_zz k conjugate p q in
      let d = sqrt (sub (square xz) (mul xx zz)) in
      let n2 = unit ⊕ unit in
      let e = var 0 in
      let w = var 1 in
      let u = var 2 in
      let v = var 3 in
      let env = d ∷ xz ∷ xx ∷ zz ∷ [] in
      solve k.ring (v ⊗ squared (e ⊕ w) ⊕ u ⊗ squared v)
        (v ⊗ squared e ⊕ v ⊗ (n2 ⊗ (e ⊗ w) ⊕ squared w ⊕ u ⊗ v)) env refl
      ∙ ap
          (λ t.
            add (mul zz t) (mul zz (add (add (mul (two k) (mul d xz)) (square xz)) (mul xx zz))))
          h
      ∙ solve k.ring (v ⊗ (squared w ⊖ u ⊗ v) ⊕ v ⊗ (n2 ⊗ (e ⊗ w) ⊕ squared w ⊕ u ⊗ v))
          (n2 ⊗ w ⊗ ((e ⊕ w) ⊗ v)) env refl
