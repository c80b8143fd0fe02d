-- ===== src/Surfaces/Gluing.antt =====
-- The first step of a chain, from a product of curves to a surface: src/surfaces/isogeny/gluing.rs.
-- The fields `T1`, `T1_jac`, `T2`, `T2_jac` of the kernel are in lower case.
pub mod Laws
use sqisign_selkie.Prelude.{ℕ, List, [], ◌∷◌, map}
use sqisign_selkie.Fields.{Field}
use sqisign_selkie.Curves.Point.{ProjectiveXOnlyPoint, double}
use sqisign_selkie.Curves.Jacobian.{JacobianPoint as CurveJacobianPoint, double_for_theta, to_xz}
use sqisign_selkie.Surfaces.{
  ThetaNullPoint, DualThetaNullPoint, Jacobian, JacobianPoint, GluingMatrix, Quad, hadamard4,
  new_jacobian, matrix_by,
}

module _ (k : Field) where
  open k use {invert}
  open k.ring use {Carrier, zero, one, add, sub, neg, mul, square}

  abbrev pub ProductPoint : Type 0
  ProductPoint = ProjectiveXOnlyPoint k × ProjectiveXOnlyPoint k

  abbrev pub JacobianProductPoint : Type 0
  JacobianProductPoint = CurveJacobianPoint k × CurveJacobianPoint k

  pub record GluingKernel : Type 0 where
    pub t1 : ProductPoint
    pub t1_jac : JacobianProductPoint
    pub t2 : ProductPoint
    pub t2_jac : JacobianProductPoint

  pub record GluingData : Type 0 where
    pub dual : DualThetaNullPoint k
    pub codomain : Jacobian k
    pub j : JacobianPoint k
    pub n : GluingMatrix k

  unfoldable pub squared_hadamard4 : Carrier → Carrier → Carrier → Carrier → Quad k
  squared_hadamard4 x y z w = hadamard4 k (square x) (square y) (square z) (square w)

  pub record TranslationData : Type 0 where
    pub wz : Carrier
    pub ux : Carrier
    pub uz : Carrier
    pub delta : Carrier
    pub x : Carrier
    pub z : Carrier

  unfoldable pub translation_pre_invert : ProjectiveXOnlyPoint k → TranslationData
  translation_pre_invert p_prime =
      let p = double k p_prime in
      let wx = mul p.z p_prime.x in
      let wz = mul p.z p_prime.z in
      let ux = mul p.x p_prime.x in
      let uz = mul p.x p_prime.z in
      let delta = sub wx uz in
      record { wz = wz; ux = ux; uz = uz; delta = delta; x = p_prime.x; z = p_prime.z }

  -- The entries of `[[Fp2; 2]; 2]`.
  pub record Action : Type 0 where
    pub m00 : Carrier
    pub m01 : Carrier
    pub m10 : Carrier
    pub m11 : Carrier

  unfoldable pub translation_finish : TranslationData → Carrier → Carrier → Action
  translation_finish d delta_inv z_inv =
      let m00 = mul (neg d.uz) delta_inv in
      let m01 = mul (neg d.wz) delta_inv in
      let m10 = sub (mul d.ux delta_inv) (mul d.x z_inv) in
      let m11 = neg m00 in record { m00 = m00; m01 = m01; m10 = m10; m11 = m11 }

  -- The prefix products behind `p`: the product of all elements.
  unfoldable pub forward_pass : Carrier → List Carrier → Carrier
  forward_pass p [] = p
  forward_pass p (x ∷ xs) = forward_pass (mul p x) xs

  -- The backward pass over the elements behind the prefix `p`: what is left of the inverse, and the
  -- results.
  unfoldable pub backward_pass : Carrier → List Carrier → Carrier → Carrier × List Carrier
  backward_pass p [] inv = (inv, [])
  backward_pass p (x ∷ xs) inv =
      let (left, rest) = backward_pass (mul p x) xs inv in (mul left x, mul left p ∷ rest)

  unfoldable pub batch_invert : List Carrier → List Carrier
  batch_invert [] = []
  batch_invert (x ∷ xs) =
      let inv = invert (forward_pass x xs) in
      let (left, rest) = backward_pass x xs inv in left ∷ rest

  -- A row of the product of two actions with the first column of the second one.
  abbrev pub first_column : Carrier → Carrier → Action → Carrier
  first_column a b h = add (mul a h.m00) (mul b h.m10)

  -- The matrix from the four actions.
  unfoldable pub matrix_of_actions : Action → Action → Action → Action → GluingMatrix k
  matrix_of_actions g gp h hp =
      let t1 = first_column g.m00 g.m01 h in
      let t2 = first_column g.m10 g.m11 h in
      let t3 = first_column gp.m00 gp.m01 hp in
      let t4 = first_column gp.m10 gp.m11 hp in
      let gg00 = mul g.m00 gp.m00 in
      let hh00 = mul h.m00 hp.m00 in
      let t1t3 = mul t1 t3 in
      let n00 = add (add (add gg00 hh00) t1t3) one in
      let gg01 = mul g.m00 gp.m10 in
      let hh01 = mul h.m00 hp.m10 in
      let t1t4 = mul t1 t4 in
      let n01 = add (add gg01 hh01) t1t4 in
      let gg10 = mul g.m10 gp.m00 in
      let hh10 = mul h.m10 hp.m00 in
      let t2t3 = mul t2 t3 in
      let n02 = add (add gg10 hh10) t2t3 in
      let gg11 = mul g.m10 gp.m10 in
      let hh11 = mul h.m10 hp.m10 in
      let t2t4 = mul t2 t4 in
      let n03 = add (add gg11 hh11) t2t4 in
      let n10 = add (mul hp.m00 n00) (mul hp.m01 n01) in
      let n11 = add (mul hp.m10 n00) (mul hp.m11 n01) in
      let n12 = add (mul hp.m00 n02) (mul hp.m01 n03) in
      let n13 = add (mul hp.m10 n02) (mul hp.m11 n03) in
      let n20 = add (mul g.m00 n00) (mul g.m01 n02) in
      let n21 = add (mul g.m00 n01) (mul g.m01 n03) in
      let n22 = add (mul g.m10 n00) (mul g.m11 n02) in
      let n23 = add (mul g.m10 n01) (mul g.m11 n03) in
      let n30 = add (mul g.m00 n10) (mul g.m01 n12) in
      let n31 = add (mul g.m00 n11) (mul g.m01 n13) in
      let n32 = add (mul g.m10 n10) (mul g.m11 n12) in
      let n33 = add (mul g.m10 n11) (mul g.m11 n13) in
      record {
        r0 = (n00, n01, n02, n03);
        r1 = (n10, n11, n12, n13);
        r2 = (n20, n21, n22, n23);
        r3 = (n30, n31, n32, n33);
      }

  -- `invs[i]`
  abbrev pub element_at : List Carrier → ℕ → Carrier
  element_at [] i = zero
  element_at (x ∷ xs) ℕ.zero = x
  element_at (x ∷ xs) (ℕ.suc i) = element_at xs i

  unfoldable pub theta_change_of_basis : ProductPoint → ProductPoint → GluingMatrix k
  theta_change_of_basis t1 t2 =
      let d_g = translation_pre_invert t1.0 in
      let d_gp = translation_pre_invert t1.1 in
      let d_h = translation_pre_invert t2.0 in
      let d_hp = translation_pre_invert t2.1 in
      let invs =
        batch_invert (
          d_g.delta ∷ d_g.z ∷ d_gp.delta ∷ d_gp.z ∷ d_h.delta ∷ d_h.z ∷ d_hp.delta ∷ d_hp.z ∷ []) in
      matrix_of_actions (translation_finish d_g (element_at invs 0) (element_at invs 1))
        (translation_finish d_gp (element_at invs 2) (element_at invs 3))
        (translation_finish d_h (element_at invs 4) (element_at invs 5))
        (translation_finish d_hp (element_at invs 6) (element_at invs 7))

  -- One point of `product_to_theta`.
  unfoldable pub point_to_theta : GluingMatrix k → ProductPoint → Quad k
  point_to_theta n (p1, p2) =
      let x = mul p1.x p2.x in
      let y = mul p1.x p2.z in
      let z = mul p1.z p2.x in let w = mul p1.z p2.z in matrix_by k n (x, y, z, w)

  unfoldable pub product_to_theta : List ProductPoint → GluingMatrix k → List (Quad k)
  product_to_theta pts n = map (point_to_theta n) pts

  unfoldable pub add_sub_components_jac :
      CurveJacobianPoint k → CurveJacobianPoint k → Carrier → Carrier × Carrier × Carrier
  add_sub_components_jac p q a =
      let t0 = square p.z in
      let t1 = square q.z in
      let t2 = mul p.x t1 in
      let t3 = mul t0 q.x in
      let t4 = mul p.y q.z in
      let t4 = mul t4 t1 in
      let t5 = mul p.z q.y in
      let t5 = mul t5 t0 in
      let t0 = mul t0 t1 in
      let t6 = mul t4 t5 in
      let v = add t6 t6 in
      let t4_sq = square t4 in
      let t5_sq = square t5 in
      let sum_y2 = add t4_sq t5_sq in
      let sum_x = add t2 t3 in
      let lambda = sub t2 t3 in
      let lambda_sq = square lambda in
      let a_t0 = mul a t0 in
      let gamma = mul (add sum_x a_t0) lambda_sq in
      let u = sub sum_y2 gamma in let w = mul lambda_sq t0 in (u, v, w)

  -- The null point, its inverses and the image of the kernel, from `hs1`, `hs2` and the matrix.
  abbrev pub gluing_data : Quad k → Quad k → GluingMatrix k → GluingData
  gluing_data hs1 hs2 n =
      let alpha = mul hs1.0 hs2.0 in
      let beta = mul hs1.1 hs2.0 in
      let gamma = mul hs1.0 hs2.2 in
      let alpha_inv = mul hs1.1 hs2.2 in
      let beta_inv = mul hs1.0 hs2.2 in
      let gamma_inv = mul hs1.1 hs2.0 in
      let x = mul hs1.0 alpha_inv in
      let y = mul hs1.2 beta in
      let h = hadamard4 k alpha beta gamma zero in
      let codomain = new_jacobian k (record { a = h.0; b = h.1; c = h.2; d = h.3 }) in
      record {
        dual = record {
          alpha = alpha;
          beta = beta;
          gamma = gamma;
          delta = zero;
          alpha_inv = alpha_inv;
          beta_inv = beta_inv;
          gamma_inv = gamma_inv;
          delta_inv = zero;
        };
        codomain = codomain;
        j = record { x = x; y = x; z = y; w = y; surface = codomain };
        n = n;
      }

  unfoldable pub codomain : GluingKernel → GluingData
  codomain kernel =
      let t1_prime : ProductPoint = (
        to_xz k (double_for_theta k kernel.t1_jac.0),
        to_xz k (double_for_theta k kernel.t1_jac.1),
      ) in
      let t2_prime : ProductPoint = (
        to_xz k (double_for_theta k kernel.t2_jac.0),
        to_xz k (double_for_theta k kernel.t2_jac.1),
      ) in
      let n = theta_change_of_basis t1_prime t2_prime in
      let p1 = point_to_theta n kernel.t1 in
      let p2 = point_to_theta n kernel.t2 in
      gluing_data (squared_hadamard4 p1.0 p1.1 p1.2 p1.3) (squared_hadamard4 p2.0 p2.1 p2.2 p2.3) n

  abbrev pub squares : Quad k → Quad k
  squares (x, y, z, w) = (square x, square y, square z, square w)

  unfoldable pub eval_gluing :
      JacobianProductPoint → JacobianProductPoint → Carrier → Carrier → GluingData → JacobianPoint k
  eval_gluing p t1 a1 a2 glued =
      let x_val = glued.j.x in
      let y_val = glued.j.z in
      let (u1, v1, w1) = add_sub_components_jac p.0 t1.0 a1 in
      let (u2, v2, w2) = add_sub_components_jac p.1 t1.1 a2 in
      let u = matrix_by k glued.n (add (mul u1 u2) (mul v1 v2), mul u1 w2, mul w1 u2, mul w1 w2) in
      let v = matrix_by k glued.n (add (mul v1 u2) (mul u1 v2), mul v1 w2, mul w1 v2, zero) in
      let u = squares u in
      let v = squares v in
      let pm = hadamard4 k (sub u.0 v.0) (sub u.1 v.1) (sub u.2 v.2) (sub u.3 v.3) in
      let r = hadamard4 k (mul pm.0 y_val) (mul pm.1 y_val) (mul pm.2 x_val) (mul pm.3 x_val) in
      record { x = r.0; y = r.1; z = r.2; w = r.3; surface = glued.codomain }

  unfoldable pub eval_special : ProductPoint → GluingData → JacobianPoint k
  eval_special p glued =
      let theta = point_to_theta glued.n p in
      let h = squared_hadamard4 theta.0 theta.1 theta.2 theta.3 in
      let xp = mul h.0 glued.dual.alpha_inv in
      let yp = mul h.1 glued.dual.beta_inv in
      let zp = mul h.2 glued.dual.gamma_inv in
      let r = hadamard4 k xp yp zp zero in
      record { x = r.0; y = r.1; z = r.2; w = r.3; surface = glued.codomain }

  unfoldable pub gluing_isogeny :
      GluingKernel → List ProductPoint → GluingData × List (JacobianPoint k)
  gluing_isogeny kernel pts =
      let glued = codomain kernel in
      let images = map (λ p. eval_special p glued) pts in (glued, images)
