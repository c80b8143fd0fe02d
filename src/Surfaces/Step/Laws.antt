-- ===== src/Surfaces/Step/Laws.antt =====
-- Laws of one step of a chain: the inverses of the dual null point, and the image of the null point.
use sqisign_selkie.Prelude.{◌≡◌, refl, sym, ap, ◌∙◌, [], ◌∷◌}
use sqisign_selkie.Ring.Polynomial.{var, ◌⊖◌, ◌⊗◌, squared as squared_expr}
use sqisign_selkie.Ring.Sound.{solve, value}
use sqisign_selkie.Ring.Relations.{sub-difference}
use sqisign_selkie.Fields.{Field}
use sqisign_selkie.Surfaces.{
  ThetaNullPoint, DualThetaNullPoint, JacobianPoint, Quad, hadamard4, null_from_dual, new_jacobian,
  hadamard, squared, scale,
}
use sqisign_selkie.Surfaces.Laws.{ExprQuad, hadamard_expr, null_as_point, IsMultiple}
use sqisign_selkie.Surfaces.Step.{
  standard, no_outer, ultimate_variant, EightTorsionStepKernel, interior, penultimate, ultimate,
  eight_data, inner_hadamard, dual_null, eight_dual, eight_isogeny, four_isogeny, two_isogeny,
  scale_by, eval,
}

module _ (k : Field) where
  open k.ring use {Carrier, mul, square}

  -- One product for each coordinate and its inverse.
  abbrev pub HasInverses : DualThetaNullPoint k → Type 0
  HasInverses dual =
      (mul dual.beta dual.beta_inv ≡ mul dual.alpha dual.alpha_inv)
      × (mul dual.gamma dual.gamma_inv ≡ mul dual.alpha dual.alpha_inv)
      × (mul dual.delta dual.delta_inv ≡ mul dual.alpha dual.alpha_inv)

  -- The inverses of the step of order 8 are those of its dual null point up to one common factor, for
  -- any two points.
  pub eight_isogeny-HasInverses :
      (kernel : EightTorsionStepKernel k) → HasInverses (eight_isogeny k kernel).dual
  unfolding eight_isogeny
  eight_isogeny-HasInverses kernel =
      let (t1, t2, variant) = eight_data k kernel in
      let h = inner_hadamard k variant t1 in
      let g = inner_hadamard k variant t2 in
      let env = h.x ∷ h.y ∷ g.x ∷ g.y ∷ g.z ∷ g.w ∷ [] in
      let xawb = var 0 ⊗ var 3 in
      let zaxb = var 2 ⊗ var 1 in
      let zgwd = var 4 ⊗ var 5 in
      let alpha = var 2 ⊗ xawb in
      let beta = var 3 ⊗ zaxb in
      let gamma = var 4 ⊗ xawb in
      let delta = var 5 ⊗ zaxb in
      let first = alpha ⊗ (var 1 ⊗ zgwd) in
      (
        solve k.ring (beta ⊗ (var 0 ⊗ zgwd)) first env refl,
        solve k.ring (gamma ⊗ delta) first env refl,
        solve k.ring (delta ⊗ gamma) first env refl,
      )

  hadamard-IsMultiple :
      (p : JacobianPoint k) (s : Carrier) (dual : DualThetaNullPoint k)
      → IsMultiple k p s (dual_null k dual)
      → IsMultiple k (hadamard k p) s (null_from_dual k dual)
  unfolding hadamard null_from_dual hadamard4
  hadamard-IsMultiple p s dual (e, f, g, h) =
      let env = s ∷ dual.alpha ∷ dual.beta ∷ dual.gamma ∷ dual.delta ∷ [] in
      let v : ExprQuad = (var 0 ⊗ var 1, var 0 ⊗ var 2, var 0 ⊗ var 3, var 0 ⊗ var 4) in
      let w : ExprQuad = (var 1, var 2, var 3, var 4) in
      let l = hadamard_expr v in
      let r = hadamard_expr w in
      (
        rw (e, f, g, h) (solve k.ring l.0 (var 0 ⊗ r.0) env refl),
        rw (e, f, g, h) (solve k.ring l.1 (var 0 ⊗ r.1) env refl),
        rw (e, f, g, h) (solve k.ring l.2 (var 0 ⊗ r.2) env refl),
        rw (e, f, g, h) (solve k.ring l.3 (var 0 ⊗ r.3) env refl),
      )

  abbrev pub coordinates : JacobianPoint k → Quad k
  coordinates p = (p.x, p.y, p.z, p.w)

  scaled_null :
      (p q r : JacobianPoint k) (a b c d x y z w : Carrier)
      → coordinates p ≡ (mul x a, mul x b, mul y c, mul y d)
      → coordinates q ≡ (mul z a, mul w b, mul z c, mul w d)
      → coordinates r ≡ (square a, square b, square c, square d)
      → IsMultiple k (scale_by k (eight_dual k p q) r) (mul c d) (dual_null k (eight_dual k p q))
  unfolding scale
  scaled_null p q r a b c d x y z w e f g =
      let px : p.x ≡ mul x a = ap (λ (t : Quad k). t.0) e in
      let py : p.y ≡ mul x b = ap (λ (t : Quad k). t.1) e in
      let qx : q.x ≡ mul z a = ap (λ (t : Quad k). t.0) f in
      let qy : q.y ≡ mul w b = ap (λ (t : Quad k). t.1) f in
      let qz : q.z ≡ mul z c = ap (λ (t : Quad k). t.2) f in
      let qw : q.w ≡ mul w d = ap (λ (t : Quad k). t.3) f in
      let rx : r.x ≡ square a = ap (λ (t : Quad k). t.0) g in
      let ry : r.y ≡ square b = ap (λ (t : Quad k). t.1) g in
      let rz : r.z ≡ square c = ap (λ (t : Quad k). t.2) g in
      let rw' : r.w ≡ square d = ap (λ (t : Quad k). t.3) g in
      let env = a ∷ b ∷ c ∷ d ∷ x ∷ z ∷ w ∷ [] in
      let ea = var 0 in
      let eb = var 1 in
      let ec = var 2 in
      let ed = var 3 in
      let hx = var 4 ⊗ ea in
      let hy = var 4 ⊗ eb in
      let gx = var 5 ⊗ ea in
      let gy = var 6 ⊗ eb in
      let gz = var 5 ⊗ ec in
      let gw = var 6 ⊗ ed in
      let cd = ec ⊗ ed in
      (
        rw (px, py, qx, qy, qz, qw, rx)
            (solve k.ring (squared_expr ea ⊗ (hy ⊗ (gz ⊗ gw))) (cd ⊗ (gx ⊗ (hx ⊗ gy))) env refl),
        rw (px, py, qx, qy, qz, qw, ry)
            (solve k.ring (squared_expr eb ⊗ (hx ⊗ (gz ⊗ gw))) (cd ⊗ (gy ⊗ (gx ⊗ hy))) env refl),
        rw (px, py, qx, qy, qz, qw, rz)
            (solve k.ring (squared_expr ec ⊗ (gw ⊗ (gx ⊗ hy))) (cd ⊗ (gz ⊗ (hx ⊗ gy))) env refl),
        rw (px, py, qx, qy, qz, qw, rw')
            (solve k.ring (squared_expr ed ⊗ (gz ⊗ (hx ⊗ gy))) (cd ⊗ (gw ⊗ (gx ⊗ hy))) env refl),
      )

  -- The image of the null point under the step of order 8 is the null point of the codomain times c·d,
  -- for two points whose transformed squares are (x·a : x·b : y·c : y·d) and (z·a : w·b : z·c : w·d),
  -- where those of the null point are (a² : b² : c² : d²).
  pub eval-eight_isogeny :
      (kernel : EightTorsionStepKernel k) (null : ThetaNullPoint k) (a b c d x y z w : Carrier)
      → let (t1, t2, variant) = eight_data k kernel in
        coordinates (inner_hadamard k variant t1) ≡ (mul x a, mul x b, mul y c, mul y d)
        → let (t1, t2, variant) = eight_data k kernel in
          coordinates (inner_hadamard k variant t2) ≡ (mul z a, mul w b, mul z c, mul w d)
          → coordinates (inner_hadamard k (eight_data k kernel).2 (null_as_point k null))
            ≡ (square a, square b, square c, square d)
          → IsMultiple k
              (eval k (eight_isogeny k kernel) (null_as_point k null))
              (mul c d)
              (eight_isogeny k kernel).codomain.null
  unfolding eval eight_isogeny new_jacobian
  eval-eight_isogeny (interior t1 t2) null a b c d x y z w e f g =
      let h = inner_hadamard k standard t1 in
      let l = inner_hadamard k standard t2 in
      let r = inner_hadamard k standard (null_as_point k null) in
      hadamard-IsMultiple (scale_by k (eight_dual k h l) r) (mul c d) (eight_dual k h l)
        (scaled_null h l r a b c d x y z w e f g)
  eval-eight_isogeny (penultimate t1 t2) null a b c d x y z w e f g =
      scaled_null (inner_hadamard k no_outer t1) (inner_hadamard k no_outer t2)
        (inner_hadamard k no_outer (null_as_point k null)) a b c d x y z w e f g
  eval-eight_isogeny (ultimate t1 t2) null a b c d x y z w e f g =
      scaled_null (inner_hadamard k ultimate_variant t1) (inner_hadamard k ultimate_variant t2)
        (inner_hadamard k ultimate_variant (null_as_point k null)) a b c d x y z w e f g

  -- The image of the null point under the step of order 2 is the null point of the codomain times the
  -- product of the last three transformed squares, whatever the square root answers.
  pub eval-two_isogeny :
      (sqrt : Carrier → Carrier) (null : ThetaNullPoint k)
      → let n = hadamard4 k null.a null.b null.c null.d in
        let t = hadamard4 k (square n.0) (square n.1) (square n.2) (square n.3) in
        let phi = two_isogeny k sqrt (new_jacobian k null) in
        IsMultiple k (eval k phi (null_as_point k null)) (mul (mul t.1 t.2) t.3) phi.codomain.null
  unfolding eval two_isogeny new_jacobian hadamard squared scale
  eval-two_isogeny sqrt null =
      let n = hadamard4 k null.a null.b null.c null.d in
      let t = hadamard4 k (square n.0) (square n.1) (square n.2) (square n.3) in
      let env =
        t.0 ∷ t.1 ∷ t.2 ∷ t.3 ∷ sqrt (mul t.0 t.1) ∷ sqrt (mul t.0 t.2) ∷ sqrt (mul t.0 t.3) ∷ [] in
      let s = (var 1 ⊗ var 2) ⊗ var 3 in
      (
        solve k.ring (var 0 ⊗ s) (s ⊗ var 0) env refl,
        solve k.ring (var 1 ⊗ ((var 2 ⊗ var 3) ⊗ var 4)) (s ⊗ var 4) env refl,
        solve k.ring (var 2 ⊗ ((var 1 ⊗ var 3) ⊗ var 5)) (s ⊗ var 5) env refl,
        solve k.ring (var 3 ⊗ ((var 1 ⊗ var 2) ⊗ var 6)) (s ⊗ var 6) env refl,
      )

  -- The image of the null point under the step of order 4, times the root of the product of the first
  -- and the third transformed square, is the null point of the codomain times the product of the last
  -- three, where that root is one.
  pub eval-four_isogeny :
      (sqrt : Carrier → Carrier) (t1 : JacobianPoint k) (null : ThetaNullPoint k)
      → let t = hadamard4 k (square null.a) (square null.b) (square null.c) (square null.d) in
        square (sqrt (mul t.0 t.2)) ≡ mul t.0 t.2
        → let t = hadamard4 k (square null.a) (square null.b) (square null.c) (square null.d) in
          let phi = four_isogeny k sqrt t1 (new_jacobian k null) in
          let image = eval k phi (null_as_point k null) in
          let root = sqrt (mul t.0 t.2) in
          let s = mul (mul t.1 t.2) t.3 in
          let null' = phi.codomain.null in
          (mul root image.x ≡ mul s null'.a)
          × (mul root image.y ≡ mul s null'.b)
          × (mul root image.z ≡ mul s null'.c)
          × (mul root image.w ≡ mul s null'.d)
  unfolding eval four_isogeny new_jacobian hadamard squared scale
  eval-four_isogeny sqrt t1 null root_lem =
      let t = hadamard4 k (square null.a) (square null.b) (square null.c) (square null.d) in
      let tt1 = hadamard4 k (square t1.x) (square t1.y) (square t1.z) (square t1.w) in
      let root = sqrt (mul t.0 t.2) in
      let env = t.0 ∷ t.1 ∷ t.2 ∷ t.3 ∷ sqrt (mul t.0 t.1) ∷ root ∷ tt1.0 ∷ tt1.2 ∷ [] in
      let s = (var 1 ⊗ var 2) ⊗ var 3 in
      let sac = var 5 in
      let xt = var 6 ⊗ var 3 in
      let null_z = (var 6 ⊗ var 0) ⊗ var 2 in
      let null_t = (var 7 ⊗ var 4) ⊗ var 0 in
      let square_root = squared_expr sac ⊖ var 0 ⊗ var 2 in
      let third = sac ⊗ (var 2 ⊗ ((xt ⊗ var 1) ⊗ sac)) in
      let fourth = sac ⊗ (var 3 ⊗ (((var 4 ⊗ sac) ⊗ var 7) ⊗ var 1)) in
      (
        solve k.ring (sac ⊗ (var 0 ⊗ ((xt ⊗ var 2) ⊗ var 1))) (s ⊗ ((var 6 ⊗ var 0) ⊗ sac)) env
            refl,
        solve k.ring (sac ⊗ (var 1 ⊗ ((xt ⊗ var 2) ⊗ var 4))) (s ⊗ ((var 6 ⊗ var 4) ⊗ sac)) env
            refl,
        sym (sub-difference k.ring _ _ _ (value k.ring (var 2 ⊗ (xt ⊗ var 1)) env) root_lem)
            ∙ solve k.ring (third ⊖ square_root ⊗ (var 2 ⊗ (xt ⊗ var 1))) (s ⊗ null_z) env refl,
        sym (
              sub-difference k.ring _ _ _ (value k.ring (var 3 ⊗ ((var 4 ⊗ var 7) ⊗ var 1)) env)
                root_lem)
            ∙ solve k.ring (fourth ⊖ square_root ⊗ (var 3 ⊗ ((var 4 ⊗ var 7) ⊗ var 1))) (s ⊗ null_t)
                env refl,
      )
