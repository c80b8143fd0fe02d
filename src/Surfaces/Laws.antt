-- ===== src/Surfaces/Laws.antt =====
-- Laws of theta coordinates: the doubling keeps the null point, and matrices compose.
use sqisign_selkie.Prelude.{ℕ, ◌+◌, ◌*◌, ◌≡◌, refl, ap₂, [], ◌∷◌}
use sqisign_selkie.Ring.Polynomial.{Expr, var, nil, unit, ◌⊕◌, ◌⊖◌, ◌⊗◌, squared as squared_expr}
use sqisign_selkie.Ring.Sound.{solve}
use sqisign_selkie.Fields.{Field}
use sqisign_selkie.Surfaces.{
  ThetaNullPoint, JacobianPoint, GluingMatrix, Quad, hadamard4, precompute, new_jacobian, hadamard,
  squared, scale, double, row_by, row_times, matrix_by, matrix_mul,
}

abbrev pub ExprQuad : Type 0
ExprQuad = Expr × Expr × Expr × Expr

abbrev pub hadamard_expr : ExprQuad → ExprQuad
hadamard_expr (x, y, z, w) =
    (((x ⊕ y) ⊕ z) ⊕ w, ((x ⊖ y) ⊕ z) ⊖ w, ((x ⊕ y) ⊖ z) ⊖ w, ((x ⊖ y) ⊖ z) ⊕ w)

abbrev pub squared_quad : ExprQuad → ExprQuad
squared_quad (x, y, z, w) = (squared_expr x, squared_expr y, squared_expr z, squared_expr w)

abbrev pub scale_quad : ExprQuad → ExprQuad → ExprQuad
scale_quad (x, y, z, w) (c, d, e, f) = (x ⊗ c, y ⊗ d, z ⊗ e, w ⊗ f)

abbrev double_expr : ExprQuad → ExprQuad
double_expr (a, b, c, d) =
    let (h0, h1, h2, h3) = hadamard_expr (squared_quad (a, b, c, d)) in
    let t1 = h0 ⊗ h1 in
    let t2 = h2 ⊗ h3 in
    let outer : ExprQuad = (((c ⊗ d) ⊗ b), ((c ⊗ d) ⊗ a), ((a ⊗ b) ⊗ d), ((a ⊗ b) ⊗ c)) in
    let inner : ExprQuad = (t2 ⊗ h1, t2 ⊗ h0, t1 ⊗ h3, t1 ⊗ h2) in
    scale_quad (hadamard_expr (scale_quad (squared_quad (h0, h1, h2, h3)) inner)) outer

abbrev pub row_expr : ExprQuad → ExprQuad → Expr
row_expr (m0, m1, m2, m3) (v0, v1, v2, v3) = (((nil ⊕ m0 ⊗ v0) ⊕ m1 ⊗ v1) ⊕ m2 ⊗ v2) ⊕ m3 ⊗ v3

module _ (k : Field) where
  open k.ring use {Carrier, one, add, sub, mul, square}

  -- The null point as a point of its surface.
  abbrev pub null_as_point : ThetaNullPoint k → JacobianPoint k
  null_as_point null = record {
    x = null.a;
    y = null.b;
    z = null.c;
    w = null.d;
    surface = new_jacobian k null;
  }

  abbrev pub Quadruple : Type 0
  Quadruple = Carrier × Carrier × Carrier × Carrier

  -- The points with coordinates s·(a : b : c : d), as an equation of each coordinate.
  abbrev pub IsMultiple : JacobianPoint k → Carrier → ThetaNullPoint k → Type 0
  IsMultiple p s null =
      (p.x ≡ mul s null.a) × (p.y ≡ mul s null.b) × (p.z ≡ mul s null.c) × (p.w ≡ mul s null.d)

  -- The double of the null point of a surface is the null point: its coordinates are those of the null
  -- point times 4·a·b·c·d times the four coordinates of the transform of the squares.
  pub double-null :
      (null : ThetaNullPoint k)
      → let h = hadamard4 k (square null.a) (square null.b) (square null.c) (square null.d) in
        let four = add (add one one) (add one one) in
        IsMultiple
          (double k (null_as_point null))
          (mul four
            (mul (mul (mul null.a null.b) (mul null.c null.d)) (mul (mul h.0 h.1) (mul h.2 h.3))))
          null
  unfolding double new_jacobian precompute hadamard squared scale hadamard4
  double-null null =
      let env = null.a ∷ null.b ∷ null.c ∷ null.d ∷ [] in
      let v : ExprQuad = (var 0, var 1, var 2, var 3) in
      let (h0, h1, h2, h3) = hadamard_expr (squared_quad v) in
      let four = (unit ⊕ unit) ⊕ (unit ⊕ unit) in
      let s = four ⊗ (((var 0 ⊗ var 1) ⊗ (var 2 ⊗ var 3)) ⊗ ((h0 ⊗ h1) ⊗ (h2 ⊗ h3))) in
      let d = double_expr v in
      (
        solve k.ring d.0 (s ⊗ var 0) env refl,
        solve k.ring d.1 (s ⊗ var 1) env refl,
        solve k.ring d.2 (s ⊗ var 2) env refl,
        solve k.ring d.3 (s ⊗ var 3) env refl,
      )

  pub row_by-row_times :
      (u : Quadruple) (n : GluingMatrix k) (v : Quadruple)
      → row_by k (row_times k u n) v ≡ row_by k u (matrix_by k n v)
  unfolding matrix_by
  row_by-row_times (u0, u1, u2, u3) n (v0, v1, v2, v3) =
      let env =
        u0 ∷ u1 ∷ u2 ∷ u3 ∷ v0 ∷ v1 ∷ v2 ∷ v3 ∷ n.r0.0 ∷ n.r0.1 ∷ n.r0.2 ∷ n.r0.3 ∷ n.r1.0 ∷ n.r1.1
        ∷ n.r1.2 ∷ n.r1.3 ∷ n.r2.0 ∷ n.r2.1 ∷ n.r2.2 ∷ n.r2.3 ∷ n.r3.0 ∷ n.r3.1 ∷ n.r3.2 ∷ n.r3.3
        ∷ [] in
      let u : ExprQuad = (var 0, var 1, var 2, var 3) in
      let v : ExprQuad = (var 4, var 5, var 6, var 7) in
      let row : ℕ → ExprQuad =
        λ i. (var (8 + 4 * i), var (9 + 4 * i), var (10 + 4 * i), var (11 + 4 * i)) in
      let column : ℕ → ExprQuad = λ j. (var (8 + j), var (12 + j), var (16 + j), var (20 + j)) in
      solve k.ring
        (row_expr
          (
            row_expr u (column 0),
            row_expr u (column 1),
            row_expr u (column 2),
            row_expr u (column 3),
          )
          v)
        (row_expr u
          (row_expr (row 0) v, row_expr (row 1) v, row_expr (row 2) v, row_expr (row 3) v))
        env refl

  -- A product of matrices is the one applied after the other.
  pub matrix_by-matrix_mul :
      (m n : GluingMatrix k) (v : Quad k)
      → matrix_by k (matrix_mul k m n) v ≡ matrix_by k m (matrix_by k n v)
  unfolding matrix_mul matrix_by
  matrix_by-matrix_mul m n v =
      ap₂ (λ (s t : Carrier × Carrier). (s.0, s.1, t.0, t.1))
        (ap₂ (λ (s t : Carrier). (s, t)) (row_by-row_times m.r0 n v) (row_by-row_times m.r1 n v))
        (ap₂ (λ (s t : Carrier). (s, t)) (row_by-row_times m.r2 n v) (row_by-row_times m.r3 n v))
