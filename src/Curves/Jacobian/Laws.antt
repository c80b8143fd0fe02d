-- ===== src/Curves/Jacobian/Laws.antt =====
-- The doublings with both coordinates: they stay on the curve, give one point, and agree with the
-- doubling on the x-line.
use sqisign_selkie.Prelude.{◌≡◌, refl, sym, ap, ap₂, ◌∙◌, [], ◌∷◌, List, true}
use sqisign_selkie.Ring.Polynomial.{Expr, var, unit, ◌⊕◌, ◌⊖◌, ◌⊗◌, squared}
use sqisign_selkie.Ring.Sound.{solve, value}
use sqisign_selkie.Fields.{Field}
use sqisign_selkie.Curves.Montgomery.Laws.{IsCurve}
use sqisign_selkie.Curves.Point.{point_eq, from_xz, double as double_xz}
use sqisign_selkie.Curves.Point.Laws.{numerator, denominator, double_value}
use sqisign_selkie.Curves.Jacobian.{JacobianPoint, double, double_for_theta, to_xz}

module _ (k : Field) where
  open k.ring use {Carrier, zero, one, add, sub, neg, mul, square}

  -- The equation of the curve in the coordinates (x, y, z) of (x/z², y/z³).
  abbrev pub rest_of : JacobianPoint k → Carrier
  rest_of p =
      add (add (mul (square p.x) p.x) (mul p.curve.affine (square (mul p.x p.z))))
        (mul p.x (square (square p.z)))

  unfoldable pub IsOnCurve : JacobianPoint k → Type 0
  IsOnCurve p = square p.y ≡ rest_of p

  -- The two doublings give one point: the coordinates of the first are those of the second times z², z³
  -- and z.
  pub double-double_for_theta :
      (p : JacobianPoint k)
      → let d = double_for_theta k p in
        ((double k p).x ≡ mul (square p.z) d.x)
        × ((double k p).y ≡ mul (mul (square p.z) p.z) d.y)
        × ((double k p).z ≡ mul p.z d.z)
  unfolding double double_for_theta
  double-double_for_theta p =
      let x = var 0 in
      let y = var 1 in
      let z = var 2 in
      let a = var 3 in
      let env = p.x ∷ p.y ∷ p.z ∷ p.curve.affine ∷ [] in
      let zz = squared z in
      let xx = squared x in
      let m = ((xx ⊕ xx) ⊕ xx) ⊕ ((a ⊕ a) ⊗ x ⊕ zz) ⊗ zz in
      let dx = y ⊕ y in
      let dy = z ⊗ m in
      let u1 = x ⊗ zz in
      let x3 = squared dy ⊖ squared dx ⊗ ((a ⊗ squared zz ⊕ u1) ⊕ u1) in
      let y3 = dy ⊗ (u1 ⊗ squared dx ⊖ x3) ⊖ (y ⊗ (zz ⊗ z)) ⊗ (squared dx ⊗ dx) in
      let alpha = ((xx ⊕ xx) ⊕ xx) ⊕ zz ⊗ (zz ⊕ (a ⊗ x ⊕ a ⊗ x)) in
      let w3 = y ⊗ z ⊕ y ⊗ z in
      let yy2 = squared y ⊕ squared y in
      let xyy4 = yy2 ⊗ (x ⊕ x) in
      let r3 = (squared alpha ⊖ a ⊗ squared w3) ⊖ (xyy4 ⊕ xyy4) in
      let s3 = alpha ⊗ (xyy4 ⊖ r3) ⊖ (squared yy2 ⊕ squared yy2) in
      (
        solve k.ring x3 (zz ⊗ r3) env refl,
        solve k.ring y3 (zz ⊗ z ⊗ s3) env refl,
        solve k.ring (dx ⊗ zz) (z ⊗ w3) env refl,
      )

  -- The coordinates of the doubling as polynomials in x, z, the coefficient and the square of y.
  abbrev x_of : Expr → Expr
  x_of t =
      let x = var 0 in
      let zz = squared (var 2) in
      let a = var 3 in
      let xx = squared x in
      let alpha = ((xx ⊕ xx) ⊕ xx) ⊕ zz ⊗ (zz ⊕ (a ⊗ x ⊕ a ⊗ x)) in
      let xt4 = (t ⊕ t) ⊗ (x ⊕ x) in
      (squared alpha ⊖ a ⊗ ((t ⊗ zz ⊕ t ⊗ zz) ⊕ (t ⊗ zz ⊕ t ⊗ zz))) ⊖ (xt4 ⊕ xt4)

  abbrev y_of : Expr → Expr
  y_of t =
      let x = var 0 in
      let zz = squared (var 2) in
      let a = var 3 in
      let xx = squared x in
      let alpha = ((xx ⊕ xx) ⊕ xx) ⊕ zz ⊗ (zz ⊕ (a ⊗ x ⊕ a ⊗ x)) in
      let xt4 = (t ⊕ t) ⊗ (x ⊕ x) in alpha ⊗ (xt4 ⊖ x_of t) ⊖ (squared (t ⊕ t) ⊕ squared (t ⊕ t))

  abbrev z_square_of : Expr → Expr
  z_square_of t = let tz = t ⊗ squared (var 2) in (tz ⊕ tz) ⊕ (tz ⊕ tz)

  -- The right side of the equation.
  abbrev rest_expr : Expr
  rest_expr =
      squared (var 0) ⊗ var 0 ⊕ var 3 ⊗ squared (var 0 ⊗ var 2) ⊕ var 0 ⊗ squared (squared (var 2))

  abbrev env_of : JacobianPoint k → Carrier → List Carrier
  env_of p t = p.x ∷ p.y ∷ p.z ∷ p.curve.affine ∷ t ∷ []

  -- An expression in the square of y is one in the right side of the equation.
  on_curve :
      (e : Expr) (p : JacobianPoint k)
      → IsOnCurve p
      → value k.ring e (env_of p (square p.y)) ≡ value k.ring e (env_of p (rest_of p))
  unfolding IsOnCurve
  on_curve e p h = ap (λ t. value k.ring e (env_of p t)) h

  x_of_double :
      (p : JacobianPoint k)
      → (double_for_theta k p).x ≡ value k.ring (x_of (var 4)) (env_of p (square p.y))
  unfolding double_for_theta
  x_of_double p =
      let x = var 0 in
      let y = var 1 in
      let z = var 2 in
      let a = var 3 in
      let zz = squared z in
      let xx = squared x in
      let alpha = ((xx ⊕ xx) ⊕ xx) ⊕ zz ⊗ (zz ⊕ (a ⊗ x ⊕ a ⊗ x)) in
      let w3 = y ⊗ z ⊕ y ⊗ z in
      let xyy4 = (squared y ⊕ squared y) ⊗ (x ⊕ x) in
      solve k.ring ((squared alpha ⊖ a ⊗ squared w3) ⊖ (xyy4 ⊕ xyy4)) (x_of (squared y))
        (env_of p (square p.y)) refl

  z_square_of_double :
      (p : JacobianPoint k)
      → square (double_for_theta k p).z ≡ value k.ring (z_square_of (var 4)) (env_of p (square p.y))
  unfolding double_for_theta
  z_square_of_double p =
      let y = var 1 in
      let z = var 2 in
      solve k.ring (squared (y ⊗ z ⊕ y ⊗ z)) (z_square_of (squared y)) (env_of p (square p.y)) refl

  y_of_double :
      (p : JacobianPoint k)
      → (double_for_theta k p).y ≡ value k.ring (y_of (var 4)) (env_of p (square p.y))
  unfolding double_for_theta
  y_of_double p =
      let x = var 0 in
      let y = var 1 in
      let z = var 2 in
      let a = var 3 in
      let zz = squared z in
      let xx = squared x in
      let alpha = ((xx ⊕ xx) ⊕ xx) ⊕ zz ⊗ (zz ⊕ (a ⊗ x ⊕ a ⊗ x)) in
      let w3 = y ⊗ z ⊕ y ⊗ z in
      let yy2 = squared y ⊕ squared y in
      let xyy4 = yy2 ⊗ (x ⊕ x) in
      let r3 = (squared alpha ⊖ a ⊗ squared w3) ⊖ (xyy4 ⊕ xyy4) in
      solve k.ring (alpha ⊗ (xyy4 ⊖ r3) ⊖ (squared yy2 ⊕ squared yy2)) (y_of (squared y))
        (env_of p (square p.y)) refl

  -- On the curve the coordinates on the x-line are those of the doubling formula.
  x_on_curve :
      (p : JacobianPoint k) → IsOnCurve p → (double_for_theta k p).x ≡ numerator k p.x (square p.z)
  x_on_curve p h =
      x_of_double p
      ∙ on_curve (x_of (var 4)) p h
      ∙ solve k.ring (x_of rest_expr) (squared (squared (var 0) ⊖ squared (squared (var 2))))
          (env_of p (rest_of p)) refl

  z_on_curve :
      (p : JacobianPoint k)
      → IsOnCurve p
      → square (double_for_theta k p).z ≡ denominator k p.curve.affine p.x (square p.z)
  z_on_curve p h =
      let x = var 0 in
      let zz = squared (var 2) in
      let n4 = (unit ⊕ unit) ⊕ (unit ⊕ unit) in
      z_square_of_double p
      ∙ on_curve (z_square_of (var 4)) p h
      ∙ solve k.ring (z_square_of rest_expr)
          (n4 ⊗ (x ⊗ zz) ⊗ ((squared x ⊕ var 3 ⊗ (x ⊗ zz)) ⊕ squared zz)) (env_of p (rest_of p))
          refl

  -- The doubling used for theta coordinates of a point of the curve lies on the curve.
  pub double_for_theta-IsOnCurve :
      (p : JacobianPoint k) → IsOnCurve p → IsOnCurve (double_for_theta k p)
  unfolding IsOnCurve double_for_theta
  double_for_theta-IsOnCurve p h =
      let d = double_for_theta k p in
      let a = p.curve.affine in
      let e = rest_expr in
      ap square (y_of_double p ∙ on_curve (y_of (var 4)) p h)
      ∙ solve k.ring (squared (y_of e))
          (squared (x_of e) ⊗ x_of e
            ⊕ var 3 ⊗ (squared (x_of e) ⊗ z_square_of e)
            ⊕ x_of e ⊗ squared (z_square_of e))
          (env_of p (rest_of p)) refl
      ∙ sym (
          ap (λ t. add (add (mul (square d.x) d.x) t) (mul d.x (square (square d.z))))
            (solve k.ring (var 2 ⊗ squared (var 0 ⊗ var 1))
              (var 2 ⊗ (squared (var 0) ⊗ squared (var 1))) (d.x ∷ d.z ∷ a ∷ []) refl)
          ∙ ap₂ (λ s t. add (add (mul (square s) s) (mul a (mul (square s) t))) (mul s (square t)))
              (x_of_double p ∙ on_curve (x_of (var 4)) p h)
              (z_square_of_double p ∙ on_curve (z_square_of (var 4)) p h))

  -- On a curve whose representations agree, doubling a point of the curve and dropping its second
  -- coordinate gives the point that the doubling on the x-line gives.
  pub to_xz-double_for_theta :
      (p : JacobianPoint k)
      → IsCurve k p.curve
      → IsOnCurve p
      → point_eq k (to_xz k (double_for_theta k p)) (double_xz k (to_xz k p)) ≡ true
  unfolding point_eq to_xz from_xz
  to_xz-double_for_theta p curve h =
      let d = double_for_theta k p in
      let q = double_xz k (to_xz k p) in
      let (dx, dz) = double_value k (to_xz k p) curve in
      let c24 = p.curve.doubling.c24 in
      (k.ct_eq_iff (mul d.x q.z) (mul q.x (square d.z))).1 (
        ap₂ mul (x_on_curve p h) dz
        ∙ solve k.ring (var 0 ⊗ (var 1 ⊗ var 2)) ((var 0 ⊗ var 2) ⊗ var 1)
            (numerator k p.x (square p.z)
              ∷ denominator k p.curve.affine p.x (square p.z)
              ∷ c24
              ∷ [])
            refl
        ∙ sym (ap₂ mul dx (z_on_curve p h)))
