-- ===== src/Curves/Jacobian/Chord.antt =====
-- The two results of `x_add_sub` against the chord through two affine points.
use sqisign_selkie.Prelude.{◌≡◌, ◌≢◌, refl, sym, ◌∙◌, [], ◌∷◌}
use sqisign_selkie.Ring.Polynomial.{Expr, var, unit, ◌⊕◌, ◌⊖◌, ◌⊗◌, squared, opposite}
use sqisign_selkie.Ring.Sound.{solve, value}
use sqisign_selkie.Ring.Relations.{sub-difference}
use sqisign_selkie.Fields.{Field}
use sqisign_selkie.Curves.Point.{from_xz}
use sqisign_selkie.Curves.Jacobian.{JacobianPoint, x_add_sub}

module _ (k : Field) where
  open k use {invert}
  open k.ring use {Carrier, zero, one, add, sub, neg, mul, square}

  -- The abscissa of the third point of the line through (x, y) and (u, v), which is that of the sum.
  abbrev pub chord : Carrier → Carrier → Carrier → Carrier → Carrier → Carrier
  chord a x y u v = sub (sub (sub (square (mul (sub v y) (invert (sub u x)))) a) x) u

  -- On two points with z = 1 and different x, the second result of `x_add_sub` is the sum and the first
  -- one the sum of the first point and the opposite of the second.
  pub x_add_sub-chord :
      (p q : JacobianPoint k)
      → p.z ≡ one
      → q.z ≡ one
      → sub q.x p.x ≢ zero
      → let (first, second) = x_add_sub k p q in
        (second.x ≡ mul (chord p.curve.affine p.x p.y q.x q.y) second.z)
        × (first.x ≡ mul (chord p.curve.affine p.x p.y q.x (neg q.y)) first.z)
  unfolding x_add_sub from_xz
  x_add_sub-chord p q ez fz ne =
      let i = invert (sub q.x p.x) in
      let env = p.x ∷ p.y ∷ q.x ∷ q.y ∷ p.curve.affine ∷ i ∷ [] in
      let inverse = k.invert_lem (sub q.x p.x) ne in
      let x = var 0 in
      let y = var 1 in
      let u = var 2 in
      let v = var 3 in
      let t0 = squared unit in
      let t1 = squared unit in
      let t2 = x ⊗ t1 in
      let t3 = t0 ⊗ u in
      let t4 = (y ⊗ unit) ⊗ t1 in
      let t5 = (unit ⊗ v) ⊗ t0 in
      let t0' = t0 ⊗ t1 in
      let t6 = t4 ⊗ t5 in
      let vv = t6 ⊕ t6 in
      let lambda_sq = squared (t2 ⊖ t3) in
      let uu = (squared t4 ⊕ squared t5) ⊖ ((t2 ⊕ t3) ⊕ var 4 ⊗ t0') ⊗ lambda_sq in
      let w = lambda_sq ⊗ t0' in
      let relation = (u ⊖ x) ⊗ var 5 ⊖ unit in
      let more = (u ⊖ x) ⊗ var 5 ⊕ unit in
      let third : Expr → Expr = λ l. ((squared (l ⊗ var 5) ⊖ var 4) ⊖ x) ⊖ u in
      let n = unit ⊖ unit in
      (
        rw (ez, fz)
            (sym (
                sub-difference k.ring _ _ _ (value k.ring (n ⊖ squared (v ⊖ y) ⊗ more) env) inverse)
              ∙ solve k.ring ((uu ⊖ vv) ⊖ relation ⊗ (n ⊖ squared (v ⊖ y) ⊗ more))
                  (third (v ⊖ y) ⊗ w) env refl),
        rw (ez, fz)
            (sym (
                sub-difference k.ring _ _ _ (value k.ring (n ⊖ squared (opposite v ⊖ y) ⊗ more) env)
                  inverse)
              ∙ solve k.ring ((uu ⊕ vv) ⊖ relation ⊗ (n ⊖ squared (opposite v ⊖ y) ⊗ more))
                  (third (opposite v ⊖ y) ⊗ w) env refl),
      )
