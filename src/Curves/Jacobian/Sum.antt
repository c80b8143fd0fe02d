-- ===== src/Curves/Jacobian/Sum.antt =====
-- The sum and the difference of two points with both coordinates against the projective difference of
-- their projections to the x-line.
use sqisign_selkie.Prelude.{◌≡◌, ◌≢◌, ◌⊎◌, inl, inr, refl, sym, ap, ap₂, ◌∙◌, [], ◌∷◌, List, true}
use sqisign_selkie.Ring.Polynomial.{Expr, var, nil, unit, ◌⊕◌, ◌⊖◌, ◌⊗◌, squared}
use sqisign_selkie.Ring.Sound.{solve, value}
use sqisign_selkie.Fields.{Field}
use sqisign_selkie.Fields.Laws.{eq_cases, no_zero_divisors}
use sqisign_selkie.Curves.Montgomery.Laws.{two}
use sqisign_selkie.Curves.Point.{point_eq, from_xz, projective_difference, b_xx, b_xz, b_zz}
use sqisign_selkie.Curves.Point.Laws.{projective_difference_root}
use sqisign_selkie.Curves.Jacobian.{JacobianPoint, x_add_sub, to_xz}
use sqisign_selkie.Curves.Jacobian.Laws.{IsOnCurve}

module _ (k : Field) where
  open k.ring use {Carrier, zero, add, sub, mul, square}

  abbrev env_of : JacobianPoint k → JacobianPoint k → Carrier → Carrier → List Carrier
  env_of p q s t = p.x ∷ p.z ∷ q.x ∷ q.z ∷ p.curve.affine ∷ s ∷ t ∷ p.y ∷ q.y ∷ []

  -- The product of the coordinates of the sum and the difference, from the squares of the second
  -- coordinates of the points.
  abbrev product_of : Expr → Expr → Expr
  product_of s t =
      let z1 = var 1 in
      let z2 = var 3 in
      let t0 = squared z1 ⊗ squared z2 in
      let t2 = var 0 ⊗ squared z2 in
      let t3 = squared z1 ⊗ var 2 in
      let n2 = unit ⊕ unit in
      let s6 = s ⊗ (squared z2 ⊗ squared (squared z2)) in
      let t6 = t ⊗ (squared z1 ⊗ squared (squared z1)) in
      let gamma = ((t2 ⊕ t3) ⊕ var 4 ⊗ t0) ⊗ squared (t2 ⊖ t3) in
      squared ((s6 ⊕ t6) ⊖ gamma) ⊖ squared n2 ⊗ (s6 ⊗ t6)

  product_lem :
      (p q : JacobianPoint k)
      → mul (x_add_sub k p q).0.x (x_add_sub k p q).1.x
        ≡ value k.ring (product_of (var 5) (var 6)) (env_of p q (square p.y) (square q.y))
  unfolding x_add_sub from_xz
  product_lem p q =
      let x1 = var 0 in
      let z1 = var 1 in
      let x2 = var 2 in
      let z2 = var 3 in
      let t2 = x1 ⊗ squared z2 in
      let t3 = squared z1 ⊗ x2 in
      let t4 = var 7 ⊗ z2 ⊗ squared z2 in
      let t5 = z1 ⊗ var 8 ⊗ squared z1 in
      let t0 = squared z1 ⊗ squared z2 in
      let t6 = t4 ⊗ t5 in
      let v = t6 ⊕ t6 in
      let gamma = ((t2 ⊕ t3) ⊕ var 4 ⊗ t0) ⊗ squared (t2 ⊖ t3) in
      let u = (squared t4 ⊕ squared t5) ⊖ gamma in
      solve k.ring ((u ⊕ v) ⊗ (u ⊖ v)) (product_of (squared (var 7)) (squared (var 8)))
        (env_of p q (square p.y) (square q.y)) refl

  abbrev rest_expr : Expr → Expr → Expr
  rest_expr x z = squared x ⊗ x ⊕ var 4 ⊗ squared (x ⊗ z) ⊕ x ⊗ squared (squared z)

  -- The product of the coordinates of the sum and the difference of points of one curve.
  product_on_curve :
      (p q : JacobianPoint k)
      → p.curve.affine ≡ q.curve.affine
      → IsOnCurve k p
      → IsOnCurve k q
      → mul (x_add_sub k p q).0.x (x_add_sub k p q).1.x
        ≡ mul (square (sub (mul p.x (square q.z)) (mul (square p.z) q.x))) (
            square (
              mul
                (mul (square p.z) (square q.z))
                (sub (mul p.x q.x) (mul (square p.z) (square q.z)))))
  unfolding IsOnCurve
  product_on_curve p q e h g =
      let x1 = var 0 in
      let z1 = var 1 in
      let x2 = var 2 in
      let z2 = var 3 in
      let same =
        ap
          (λ a.
            add (add (mul (square q.x) q.x) (mul a (square (mul q.x q.z))))
              (mul q.x (square (square q.z))))
          (sym e) in
      product_lem p q
      ∙ ap₂ (λ s t. value k.ring (product_of (var 5) (var 6)) (env_of p q s t)) h (g ∙ same)
      ∙ solve k.ring (product_of (rest_expr x1 z1) (rest_expr x2 z2))
          (squared (x1 ⊗ squared z2 ⊖ squared z1 ⊗ x2)
            ⊗ squared (squared z1 ⊗ squared z2 ⊗ (x1 ⊗ x2 ⊖ squared z1 ⊗ squared z2)))
          (env_of p q (square p.y) (square q.y)) refl

  -- The sum of the coordinates, from the squares of the second coordinates of the points.
  abbrev sum_of : Expr → Expr → Expr
  sum_of s t =
      let z1 = var 1 in
      let z2 = var 3 in
      let t0 = squared z1 ⊗ squared z2 in
      let t2 = var 0 ⊗ squared z2 in
      let t3 = squared z1 ⊗ var 2 in
      let s6 = s ⊗ (squared z2 ⊗ squared (squared z2)) in
      let t6 = t ⊗ (squared z1 ⊗ squared (squared z1)) in
      let gamma = ((t2 ⊕ t3) ⊕ var 4 ⊗ t0) ⊗ squared (t2 ⊖ t3) in
      (unit ⊕ unit) ⊗ ((s6 ⊕ t6) ⊖ gamma)

  sum_lem :
      (p q : JacobianPoint k)
      → add (x_add_sub k p q).0.x (x_add_sub k p q).1.x
        ≡ value k.ring (sum_of (var 5) (var 6)) (env_of p q (square p.y) (square q.y))
  unfolding x_add_sub from_xz
  sum_lem p q =
      let x1 = var 0 in
      let z1 = var 1 in
      let x2 = var 2 in
      let z2 = var 3 in
      let t2 = x1 ⊗ squared z2 in
      let t3 = squared z1 ⊗ x2 in
      let t4 = var 7 ⊗ z2 ⊗ squared z2 in
      let t5 = z1 ⊗ var 8 ⊗ squared z1 in
      let t0 = squared z1 ⊗ squared z2 in
      let t6 = t4 ⊗ t5 in
      let v = t6 ⊕ t6 in
      let gamma = ((t2 ⊕ t3) ⊕ var 4 ⊗ t0) ⊗ squared (t2 ⊖ t3) in
      let u = (squared t4 ⊕ squared t5) ⊖ gamma in
      solve k.ring ((u ⊕ v) ⊕ (u ⊖ v)) (sum_of (squared (var 7)) (squared (var 8)))
        (env_of p q (square p.y) (square q.y)) refl

  -- The coefficient of the mixed term of the quadratic, without the scale.
  abbrev mixed : Expr
  mixed =
      let xpxq = var 0 ⊗ var 2 in
      let zpzq = squared (var 1) ⊗ squared (var 3) in
      let xpzq = var 0 ⊗ squared (var 3) in
      let zpxq = squared (var 1) ⊗ var 2 in
      (xpxq ⊕ zpzq) ⊗ (xpzq ⊕ zpxq) ⊕ (var 4 ⊕ var 4) ⊗ (xpxq ⊗ zpzq)

  -- The sum of the coordinates of the sum and the difference of points of one curve.
  sum_on_curve :
      (p q : JacobianPoint k)
      → p.curve.affine ≡ q.curve.affine
      → IsOnCurve k p
      → IsOnCurve k q
      → add (x_add_sub k p q).0.x (x_add_sub k p q).1.x
        ≡ value k.ring
            ((unit ⊕ unit) ⊗ (mixed ⊗ (squared (var 1) ⊗ squared (var 3))))
            (env_of p q (square p.y) (square q.y))
  unfolding IsOnCurve
  sum_on_curve p q e h g =
      let same =
        ap
          (λ a.
            add (add (mul (square q.x) q.x) (mul a (square (mul q.x q.z))))
              (mul q.x (square (square q.z))))
          (sym e) in
      sum_lem p q
      ∙ ap₂ (λ s t. value k.ring (sum_of (var 5) (var 6)) (env_of p q s t)) h (g ∙ same)
      ∙ solve k.ring (sum_of (rest_expr (var 0) (var 1)) (rest_expr (var 2) (var 3)))
          ((unit ⊕ unit) ⊗ (mixed ⊗ (squared (var 1) ⊗ squared (var 3))))
          (env_of p q (square p.y) (square q.y)) refl

  abbrev scaled_env : (Carrier → Carrier) → JacobianPoint k → JacobianPoint k → List Carrier
  scaled_env conjugate p q =
      p.x ∷ p.z ∷ q.x ∷ q.z ∷ p.curve.affine ∷ conjugate (square p.z) ∷ conjugate (square q.z) ∷ []

  abbrev scale : Expr
  scale = squared (var 5) ⊗ squared (var 6)

  abbrev lambda_of : Expr
  lambda_of = var 0 ⊗ squared (var 3) ⊖ squared (var 1) ⊗ var 2

  abbrev other_of : Expr
  other_of = var 0 ⊗ var 2 ⊖ squared (var 1) ⊗ squared (var 3)

  abbrev z_of : Expr
  z_of = squared (var 1) ⊗ squared (var 3)

  -- The quadratic of the projections has the sum and the product of the two results as its coefficients.
  quadratic_sum :
      (conjugate : Carrier → Carrier) (p q : JacobianPoint k)
      → p.curve.affine ≡ q.curve.affine
      → IsOnCurve k p
      → IsOnCurve k q
      → let (first, second) = x_add_sub k p q in
        mul (b_zz k conjugate (to_xz k p) (to_xz k q)) (add first.x second.x)
        ≡ mul (mul (two k) (b_xz k conjugate (to_xz k p) (to_xz k q))) first.z
  unfolding b_zz b_xz to_xz from_xz x_add_sub
  quadratic_sum conjugate p q e h g =
      ap (mul (b_zz k conjugate (to_xz k p) (to_xz k q))) (sum_on_curve p q e h g)
      ∙ solve k.ring (scale ⊗ squared lambda_of ⊗ ((unit ⊕ unit) ⊗ (mixed ⊗ z_of)))
          ((unit ⊕ unit) ⊗ (scale ⊗ mixed) ⊗ (squared lambda_of ⊗ z_of)) (scaled_env conjugate p q)
          refl

  quadratic_product :
      (conjugate : Carrier → Carrier) (p q : JacobianPoint k)
      → p.curve.affine ≡ q.curve.affine
      → IsOnCurve k p
      → IsOnCurve k q
      → let (first, second) = x_add_sub k p q in
        mul (b_zz k conjugate (to_xz k p) (to_xz k q)) (mul first.x second.x)
        ≡ mul (b_xx k conjugate (to_xz k p) (to_xz k q)) (square first.z)
  unfolding b_zz b_xx to_xz from_xz x_add_sub
  quadratic_product conjugate p q e h g =
      ap (mul (b_zz k conjugate (to_xz k p) (to_xz k q))) (product_on_curve p q e h g)
      ∙ solve k.ring (scale ⊗ squared lambda_of ⊗ (squared lambda_of ⊗ squared (z_of ⊗ other_of)))
          (scale ⊗ squared other_of ⊗ squared (squared lambda_of ⊗ z_of)) (scaled_env conjugate p q)
          refl

  -- A root of a quadratic with two known roots is one of them.
  root_factors :
      (xx xz zz s d w rx rz : Carrier)
      → mul zz (add s d) ≡ mul (mul (two k) xz) w
      → mul zz (mul s d) ≡ mul xx (square w)
      → add (mul zz (square rx)) (mul xx (square rz)) ≡ mul (mul (two k) xz) (mul rx rz)
      → mul zz (mul (sub (mul rx w) (mul s rz)) (sub (mul rx w) (mul d rz))) ≡ zero
  root_factors xx xz zz s d w rx rz h g root =
      let a = var 0 in
      let b = var 1 in
      let c = var 2 in
      let m = var 5 in
      let x = var 6 in
      let z = var 7 in
      let env = xx ∷ xz ∷ zz ∷ s ∷ d ∷ w ∷ rx ∷ rz ∷ [] in
      let n2 = unit ⊕ unit in
      solve k.ring (c ⊗ ((x ⊗ m ⊖ var 3 ⊗ z) ⊗ (x ⊗ m ⊖ var 4 ⊗ z)))
        ((squared m ⊗ (c ⊗ squared x) ⊕ c ⊗ (var 3 ⊗ var 4) ⊗ squared z)
          ⊖ c ⊗ (var 3 ⊕ var 4) ⊗ (m ⊗ (x ⊗ z)))
        env refl
      ∙ ap₂
          (λ u v.
            sub (add (mul (square w) (mul zz (square rx))) (mul u (square rz)))
              (mul v (mul w (mul rx rz))))
          g h
      ∙ solve k.ring
          ((squared m ⊗ (c ⊗ squared x) ⊕ a ⊗ squared m ⊗ squared z) ⊖ n2 ⊗ b ⊗ m ⊗ (m ⊗ (x ⊗ z)))
          (squared m ⊗ ((c ⊗ squared x ⊕ a ⊗ squared z) ⊖ n2 ⊗ b ⊗ (x ⊗ z))) env refl
      ∙ ap (λ u. mul (square w) (sub u (mul (mul (two k) xz) (mul rx rz)))) root
      ∙ solve k.ring (squared m ⊗ (n2 ⊗ b ⊗ (x ⊗ z) ⊖ n2 ⊗ b ⊗ (x ⊗ z))) nil env refl

  no_difference : (a b : Carrier) → sub a b ≡ zero → a ≡ b
  no_difference a b e =
      solve k.ring (var 0) ((var 0 ⊖ var 1) ⊕ var 1) (a ∷ b ∷ []) refl
      ∙ ap (λ t. add t b) e
      ∙ solve k.ring (nil ⊕ var 0) (var 0) (b ∷ []) refl

  equal_or :
      (zz a b c d : Carrier)
      → zz ≢ zero
      → mul zz (mul (sub a b) (sub c d)) ≡ zero
      → (a ≡ b) ⊎ (c ≡ d)
  equal_or zz a b c d ne e =
      let product = no_zero_divisors k zz (mul (sub a b) (sub c d)) ne e in
      elim (eq_cases k (sub a b) zero) [
        | inl z ↦ inl (no_difference a b z)
        | inr n ↦ inr (no_difference c d (no_zero_divisors k (sub a b) (sub c d) n product))
      ]

  -- For two points of one curve with different x, where the square root of the discriminant is a root
  -- of it, `projective_difference` of the projections to the x-line answers one of the two results of
  -- `x_add_sub`, and a point with a coordinate z that is not zero.
  pub projective_difference-x_add_sub :
      (conjugate sqrt : Carrier → Carrier) (p q : JacobianPoint k)
      → p.curve.affine ≡ q.curve.affine
      → IsOnCurve k p
      → IsOnCurve k q
      → b_zz k conjugate (to_xz k p) (to_xz k q) ≢ zero
      → let xx = b_xx k conjugate (to_xz k p) (to_xz k q) in
        let xz = b_xz k conjugate (to_xz k p) (to_xz k q) in
        let zz = b_zz k conjugate (to_xz k p) (to_xz k q) in
        let discriminant = sub (square xz) (mul xx zz) in
        square (sqrt discriminant) ≡ discriminant
        → let r = projective_difference k conjugate sqrt (to_xz k p) (to_xz k q) in
          let (first, second) = x_add_sub k p q in
          (r.z ≢ zero) × ((point_eq k r first ≡ true) ⊎ (point_eq k r second ≡ true))
  unfolding projective_difference point_eq x_add_sub from_xz
  projective_difference-x_add_sub conjugate sqrt p q e h g ne root =
      let xx = b_xx k conjugate (to_xz k p) (to_xz k q) in
      let xz = b_xz k conjugate (to_xz k p) (to_xz k q) in
      let zz = b_zz k conjugate (to_xz k p) (to_xz k q) in
      let r = projective_difference k conjugate sqrt (to_xz k p) (to_xz k q) in
      let first = (x_add_sub k p q).0 in
      let second = (x_add_sub k p q).1 in
      let vanishes =
        root_factors xx xz zz first.x second.x first.z r.x r.z (quadratic_sum conjugate p q e h g)
          (quadratic_product conjugate p q e h g)
          (projective_difference_root k conjugate sqrt (to_xz k p) (to_xz k q) root) in
      (
        ne,
        elim (equal_or zz (mul r.x first.z) (mul first.x r.z) (mul r.x first.z) (mul second.x r.z)
            ne vanishes) [
              | inl same ↦ inl ((k.ct_eq_iff _ _).1 same)
              | inr same ↦ inr ((k.ct_eq_iff _ _).1 same)
            ],
      )
