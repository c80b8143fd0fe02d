-- ===== src/Surfaces.antt =====
-- Abelian surfaces in theta coordinates of level 2: src/surfaces/mod.rs. The chain of isogenies of
-- that file, the gluing and the splitting are not part of it.
pub mod Laws
pub mod Step
pub mod Gluing
pub mod Splitting
pub mod Chain
use sqisign_selkie.Fields.{Field}

module _ (k : Field) where
  open k.ring use {Carrier, zero, add, sub, mul, square}

  pub record ThetaNullPoint : Type 0 where
    pub a : Carrier
    pub b : Carrier
    pub c : Carrier
    pub d : Carrier

  -- The dual null point and the projective inverses of its coordinates.
  pub record DualThetaNullPoint : Type 0 where
    pub alpha : Carrier
    pub beta : Carrier
    pub gamma : Carrier
    pub delta : Carrier
    pub alpha_inv : Carrier
    pub beta_inv : Carrier
    pub gamma_inv : Carrier
    pub delta_inv : Carrier

  pub record ThetaPrecomp : Type 0 where
    pub c1 : Carrier
    pub c2 : Carrier
    pub c3 : Carrier
    pub c4 : Carrier
    pub c5 : Carrier
    pub c6 : Carrier
    pub c7 : Carrier
    pub c8 : Carrier

  -- `(Fp2, Fp2, Fp2, Fp2)`
  abbrev pub Quad : Type 0
  Quad = Carrier × Carrier × Carrier × Carrier

  unfoldable pub hadamard4 : Carrier → Carrier → Carrier → Carrier → Quad
  hadamard4 x y z w = (
    add (add (add x y) z) w,
    sub (add (sub x y) z) w,
    sub (sub (add x y) z) w,
    add (sub (sub x y) z) w,
  )

  unfoldable pub precompute : ThetaNullPoint → ThetaPrecomp
  precompute null =
      let h = hadamard4 (square null.a) (square null.b) (square null.c) (square null.d) in
      let t1 = mul h.0 h.1 in
      let t2 = mul h.2 h.3 in
      let t1_lo = mul null.a null.b in
      let t2_lo = mul null.c null.d in
      record {
        c1 = mul t1_lo null.c;
        c2 = mul t1_lo null.d;
        c3 = mul t2_lo null.a;
        c4 = mul t2_lo null.b;
        c5 = mul t1 h.2;
        c6 = mul t1 h.3;
        c7 = mul t2 h.0;
        c8 = mul t2 h.1;
      }

  unfoldable pub null_from_dual : DualThetaNullPoint → ThetaNullPoint
  null_from_dual dual =
      let (a, b, c, d) = hadamard4 dual.alpha dual.beta dual.gamma dual.delta in
      record { a = a; b = b; c = c; d = d }

  pub record Jacobian : Type 0 where
    pub null : ThetaNullPoint
    pub precomp : ThetaPrecomp

  unfoldable pub new_jacobian : ThetaNullPoint → Jacobian
  new_jacobian null = record { null = null; precomp = precompute null }

  pub record JacobianPoint : Type 0 where
    pub x : Carrier
    pub y : Carrier
    pub z : Carrier
    pub w : Carrier
    pub surface : Jacobian

  unfoldable pub hadamard : JacobianPoint → JacobianPoint
  hadamard p =
      let (x, y, z, w) = hadamard4 p.x p.y p.z p.w in
      record { x = x; y = y; z = z; w = w; surface = p.surface }

  unfoldable pub squared : JacobianPoint → JacobianPoint
  squared p = record {
    x = square p.x;
    y = square p.y;
    z = square p.z;
    w = square p.w;
    surface = p.surface;
  }

  unfoldable pub scale : JacobianPoint → Carrier → Carrier → Carrier → Carrier → JacobianPoint
  scale p cx cy cz cw = record {
    x = mul p.x cx;
    y = mul p.y cy;
    z = mul p.z cz;
    w = mul p.w cw;
    surface = p.surface;
  }

  unfoldable pub double : JacobianPoint → JacobianPoint
  double p =
      let c = p.surface.precomp in
      let t = squared (hadamard (squared p)) in
      let t = scale t c.c8 c.c7 c.c6 c.c5 in let t = hadamard t in scale t c.c4 c.c3 c.c2 c.c1

  pub record GluingMatrix : Type 0 where
    pub r0 : Quad
    pub r1 : Quad
    pub r2 : Quad
    pub r3 : Quad

  -- The inner loop of the products, from `Fp2::ZERO`.
  abbrev pub row_by : Quad → Quad → Carrier
  row_by (m0, m1, m2, m3) (v0, v1, v2, v3) =
      add (add (add (add zero (mul m0 v0)) (mul m1 v1)) (mul m2 v2)) (mul m3 v3)

  unfoldable pub matrix_by : GluingMatrix → Quad → Quad
  matrix_by m v = (row_by m.r0 v, row_by m.r1 v, row_by m.r2 v, row_by m.r3 v)

  unfoldable pub apply_null : GluingMatrix → ThetaNullPoint → ThetaNullPoint
  apply_null m null =
      let v : Quad = (null.a, null.b, null.c, null.d) in
      record { a = row_by m.r0 v; b = row_by m.r1 v; c = row_by m.r2 v; d = row_by m.r3 v }

  unfoldable pub apply_point : GluingMatrix → JacobianPoint → JacobianPoint
  apply_point m p =
      let v : Quad = (p.x, p.y, p.z, p.w) in
      record {
        x = row_by m.r0 v;
        y = row_by m.r1 v;
        z = row_by m.r2 v;
        w = row_by m.r3 v;
        surface = p.surface;
      }

  -- A row of the product of matrices: the row times the columns.
  abbrev pub row_times : Quad → GluingMatrix → Quad
  row_times u n = (
    row_by u (n.r0.0, n.r1.0, n.r2.0, n.r3.0),
    row_by u (n.r0.1, n.r1.1, n.r2.1, n.r3.1),
    row_by u (n.r0.2, n.r1.2, n.r2.2, n.r3.2),
    row_by u (n.r0.3, n.r1.3, n.r2.3, n.r3.3),
  )

  unfoldable pub matrix_mul : GluingMatrix → GluingMatrix → GluingMatrix
  matrix_mul m n = record {
    r0 = row_times m.r0 n;
    r1 = row_times m.r1 n;
    r2 = row_times m.r2 n;
    r3 = row_times m.r3 n;
  }
