-- ===== src/Curves/Isogeny/Laws.antt =====
-- The values of the isogenies of degree 2 lie on the codomain: the cubic of the codomain at the image
-- is a square times a constant times the cubic of the domain.
use sqisign_selkie.Prelude.{◌≡◌, refl, ap, ap₂, ◌∙◌, [], ◌∷◌}
use sqisign_selkie.Ring.Laws.{mul_one}
use sqisign_selkie.Ring.Polynomial.{var, unit, ◌⊕◌, ◌⊖◌, ◌⊗◌, squared, opposite}
use sqisign_selkie.Ring.Sound.{solve, value}
use sqisign_selkie.Ring.Relations.{sub-multiple}
use sqisign_selkie.Fields.{Field}
use sqisign_selkie.Curves.Montgomery.{
  ProjectiveCoefficient, projective_from_doubling, curve_from_doubling, Curve,
}
use sqisign_selkie.Curves.Montgomery.Laws.{two, four, small_four, Doubles}
use sqisign_selkie.Curves.Point.{ProjectiveXOnlyPoint, from_xz}
use sqisign_selkie.Curves.Isogeny.{two_from_kernel, eval_two, singular_from_curve, eval_singular}

module _ (k : Field) where
  open k.ring use {Carrier, zero, one, add, sub, neg, mul, square}

  -- X·Z·(C·X² + A·X·Z + C·Z²), which is C times the right side of the equation of the curve at X/Z,
  -- scaled by Z⁴.
  abbrev pub cubic : ProjectiveCoefficient k → ProjectiveXOnlyPoint k → Carrier
  cubic e p =
      mul (mul p.x p.z)
        (add (add (mul e.c (square p.x)) (mul e.a (mul p.x p.z))) (mul e.c (square p.z)))

  -- A kernel point of order two is a root of the cubic's second factor.
  abbrev pub OrderTwo : ProjectiveXOnlyPoint k → Type 0
  OrderTwo p =
      let e = p.curve.projective in
      add (add (mul e.c (square p.x)) (mul e.a (mul p.x p.z))) (mul e.c (square p.z)) ≡ zero

  -- The image of a point under the isogeny of degree 2 from a kernel of order two: the cubic of the
  -- codomain there is the cubic of the domain times 16·X₁·Z₁ and the square of
  -- X₁·(Z₁·X² − 2·X₁·X·Z + Z₁·Z²), where the kernel is (X₁ : Z₁), up to the denominator of the
  -- coefficient of the domain.
  pub eval_two-cubic :
      (p q : ProjectiveXOnlyPoint k)
      → OrderTwo p
      → let phi = two_from_kernel k p in
        let e = p.curve.projective in
        let s = mul p.x (
          add
            (sub (mul p.z (square q.x)) (mul (two k) (mul p.x (mul q.x q.z))))
            (mul p.z (square q.z))) in
        mul e.c (cubic phi.codomain.projective (eval_two k phi q))
        ≡ mul (mul (mul (square (four k)) (mul p.x p.z)) (square s)) (cubic e q)
  unfolding eval_two two_from_kernel from_xz curve_from_doubling projective_from_doubling
  eval_two-cubic p q h =
      let e = p.curve.projective in
      let u = var 0 in
      let v = var 1 in
      let x = var 2 in
      let z = var 3 in
      let a = var 4 in
      let c = var 5 in
      let n2 = unit ⊕ unit in
      let n4 = n2 ⊕ n2 in
      let env = p.x ∷ p.z ∷ q.x ∷ q.z ∷ e.a ∷ e.c ∷ [] in
      let t0 = (u ⊕ v) ⊗ (x ⊖ z) in
      let t1 = (u ⊖ v) ⊗ (x ⊕ z) in
      let xq = x ⊗ (t0 ⊕ t1) in
      let zq = z ⊗ (t0 ⊖ t1) in
      let a24 = squared v ⊖ squared u in
      let c24 = squared v in
      let an = ((a24 ⊕ a24) ⊕ (a24 ⊕ a24)) ⊖ (c24 ⊕ c24) in
      let s = u ⊗ (v ⊗ squared x ⊖ n2 ⊗ (u ⊗ (x ⊗ z)) ⊕ v ⊗ squared z) in
      let rest = squared n4 ⊗ squared s ⊗ squared (x ⊗ z) in
      let image = c ⊗ (xq ⊗ zq ⊗ (c24 ⊗ squared xq ⊕ an ⊗ (xq ⊗ zq) ⊕ c24 ⊗ squared zq)) in
      let result =
        squared n4
        ⊗ (u ⊗ v)
        ⊗ squared s
        ⊗ (x ⊗ z ⊗ (c ⊗ squared x ⊕ a ⊗ (x ⊗ z) ⊕ c ⊗ squared z)) in
      let kernel = c ⊗ squared u ⊕ a ⊗ (u ⊗ v) ⊕ c ⊗ squared v in
      solve k.ring image (result ⊖ kernel ⊗ rest) env refl
      ∙ sub-multiple k.ring (value k.ring result env) (value k.ring kernel env)
          (value k.ring rest env) h

  coefficient_of_constants :
      (e : Curve k)
      → Doubles k e.doubling e.affine
      → let t = sub (add e.doubling.a24 e.doubling.a24) e.doubling.c24 in
        mul (add t t) (k.invert e.doubling.c24) ≡ e.affine
  unfolding Doubles
  coefficient_of_constants e (ne, h) =
      let d = e.doubling in
      let n2 = unit ⊕ unit in
      let n4 = n2 ⊕ n2 in
      let x = var 0 in
      let c = var 1 in
      let j = k.invert d.c24 in
      let env = d.a24 ∷ d.c24 ∷ e.affine ∷ j ∷ [] in
      let t = (x ⊕ x) ⊖ c in
      solve k.ring ((t ⊕ t) ⊗ var 3) ((n4 ⊗ x ⊖ n2 ⊗ c) ⊗ var 3) env refl
      ∙ ap (λ s. mul (sub s (mul (two k) d.c24)) j) h
      ∙ solve k.ring (((var 2 ⊕ n2) ⊗ c ⊖ n2 ⊗ c) ⊗ var 3) (var 2 ⊗ (c ⊗ var 3)) env refl
      ∙ ap (mul e.affine) (k.invert_lem d.c24 ne)
      ∙ mul_one k.ring e.affine

  -- The image of a point under the isogeny with kernel (0 : 1): where the square root of the
  -- discriminant A² − 4 is one, the cubic of the codomain there is the cubic of the domain times the
  -- square of X² − Z² and minus four times the discriminant.
  pub eval_singular-cubic :
      (sqrt : Carrier → Carrier) (e : Curve k) (q : ProjectiveXOnlyPoint k)
      → Doubles k e.doubling e.affine
      → let disc = sub (square e.affine) (four k) in
        square (sqrt disc) ≡ disc
        → let phi = singular_from_curve k sqrt e in
          cubic phi.codomain.projective (eval_singular k phi q)
          ≡ neg (
              mul (mul (mul (four k) disc) (square (sub (square q.x) (square q.z)))) (
                mul
                  (mul q.x q.z)
                  (add (add (square q.x) (mul e.affine (mul q.x q.z))) (square q.z))))
  unfolding eval_singular singular_from_curve from_xz curve_from_doubling projective_from_doubling
  eval_singular-cubic sqrt e q h root =
      let x = var 0 in
      let z = var 1 in
      let t = var 2 in
      let s = var 3 in
      let n2 = unit ⊕ unit in
      let n4 = n2 ⊕ n2 in
      let a24 = (t ⊕ t) ⊕ (s ⊕ s) in
      let c24 = (s ⊕ s) ⊕ (s ⊕ s) in
      let an = ((a24 ⊕ a24) ⊕ (a24 ⊕ a24)) ⊖ (c24 ⊕ c24) in
      let xq = squared z ⊕ (x ⊕ t ⊗ z) ⊗ x in
      let zq = x ⊗ z ⊗ opposite s in
      let image = xq ⊗ zq ⊗ (c24 ⊗ squared xq ⊕ an ⊗ (xq ⊗ zq) ⊕ c24 ⊗ squared zq) in
      let w = x ⊗ z in
      let scaled =
        opposite (n4 ⊗ (w ⊗ xq) ⊗ (s ⊗ (squared xq ⊖ n2 ⊗ t ⊗ (xq ⊗ w)) ⊕ squared s ⊗ squared w)) in
      let scaled_square = opposite (
        n4
        ⊗ (w ⊗ xq)
        ⊗ (squared s ⊗ (squared xq ⊖ n2 ⊗ t ⊗ (xq ⊗ w)) ⊕ squared (squared s) ⊗ squared w)) in
      let disc = squared t ⊖ n4 in
      ap₂ (λ c n. value k.ring image (q.x ∷ q.z ∷ c ∷ sqrt (sub (square c) n) ∷ []))
        (coefficient_of_constants e h) (small_four k)
      ∙ solve k.ring image scaled_square
          (q.x ∷ q.z ∷ e.affine ∷ sqrt (sub (square e.affine) (four k)) ∷ []) refl
      ∙ ap (λ d. value k.ring scaled (q.x ∷ q.z ∷ e.affine ∷ d ∷ [])) root
      ∙ solve k.ring
          (opposite
            (n4 ⊗ (w ⊗ xq) ⊗ (disc ⊗ (squared xq ⊖ n2 ⊗ t ⊗ (xq ⊗ w)) ⊕ squared disc ⊗ squared w)))
          (opposite (
            n4
            ⊗ disc
            ⊗ squared (squared x ⊖ squared z)
            ⊗ (x ⊗ z ⊗ ((squared x ⊕ t ⊗ (x ⊗ z)) ⊕ squared z))))
          (q.x ∷ q.z ∷ e.affine ∷ []) refl
