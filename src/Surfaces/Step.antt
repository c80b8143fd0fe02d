-- ===== src/Surfaces/Step.antt =====
-- The (2,2)-isogenies of one step of a chain: src/surfaces/isogeny/step.rs. The square root of the
-- extension is an argument of the functions that call it.
pub mod Laws
use sqisign_selkie.Fields.{Field}
use sqisign_selkie.Surfaces.{
  ThetaNullPoint, DualThetaNullPoint, Jacobian, JacobianPoint, hadamard4, null_from_dual,
  new_jacobian, hadamard, squared, scale,
}

pub data HadamardVariant : Type 0 where
  standard no_outer ultimate_variant : HadamardVariant

module _ (k : Field) where
  open k.ring use {Carrier, mul, square}

  -- The kernels of order 8: two points and the place in the chain.
  pub data EightTorsionStepKernel : Type 0 where
    interior penultimate ultimate : JacobianPoint k → JacobianPoint k → EightTorsionStepKernel

  pub record StepIsogeny : Type 0 where
    pub codomain : Jacobian k
    pub dual : DualThetaNullPoint k
    pub variant : HadamardVariant

  -- The match on the kernel.
  abbrev pub eight_data :
      EightTorsionStepKernel → JacobianPoint k × JacobianPoint k × HadamardVariant
  eight_data (interior t1 t2) = (t1, t2, standard)
  eight_data (penultimate t1 t2) = (t1, t2, no_outer)
  eight_data (ultimate t1 t2) = (t1, t2, ultimate_variant)

  -- The match that computes `hs1` and `hs2`.
  abbrev pub inner_hadamard : HadamardVariant → JacobianPoint k → JacobianPoint k
  inner_hadamard standard t = hadamard k (squared k t)
  inner_hadamard no_outer t = hadamard k (squared k t)
  inner_hadamard ultimate_variant t = hadamard k (squared k (hadamard k t))

  -- `ThetaNullPoint::new(dual.alpha, dual.beta, dual.gamma, dual.delta)`
  abbrev pub dual_null : DualThetaNullPoint k → ThetaNullPoint k
  dual_null dual = record { a = dual.alpha; b = dual.beta; c = dual.gamma; d = dual.delta }

  -- The match that computes `null`.
  abbrev pub codomain_null : HadamardVariant → DualThetaNullPoint k → ThetaNullPoint k
  codomain_null standard dual = null_from_dual k dual
  codomain_null no_outer dual = dual_null dual
  codomain_null ultimate_variant dual = dual_null dual

  -- The products of the coordinates of `hs1` and `hs2`.
  abbrev pub eight_dual : JacobianPoint k → JacobianPoint k → DualThetaNullPoint k
  eight_dual hs1 hs2 =
      let xawb = mul hs1.x hs2.y in
      let zaxb = mul hs2.x hs1.y in
      let alpha = mul hs2.x xawb in
      let beta = mul hs2.y zaxb in
      let gamma = mul hs2.z xawb in
      let delta = mul hs2.w zaxb in
      let zgwd = mul hs2.z hs2.w in
      let alpha_inv = mul hs1.y zgwd in
      let beta_inv = mul hs1.x zgwd in
      let gamma_inv = delta in
      let delta_inv = gamma in
      record {
        alpha = alpha;
        beta = beta;
        gamma = gamma;
        delta = delta;
        alpha_inv = alpha_inv;
        beta_inv = beta_inv;
        gamma_inv = gamma_inv;
        delta_inv = delta_inv;
      }

  unfoldable pub eight_isogeny : EightTorsionStepKernel → StepIsogeny
  eight_isogeny kernel =
      let (t1, t2, variant) = eight_data kernel in
      let hs1 = inner_hadamard variant t1 in
      let hs2 = inner_hadamard variant t2 in
      let dual = eight_dual hs1 hs2 in
      let null = codomain_null variant dual in
      record { codomain = new_jacobian k null; dual = dual; variant = variant }

  -- The null point and the inverses of the step of order 4, from `tt1`, `tt2` and the two roots.
  abbrev pub four_dual :
      JacobianPoint k
      → Carrier
      → Carrier
      → Carrier
      → Carrier
      → Carrier
      → Carrier
      → DualThetaNullPoint k
  four_dual tt1 tt2_x tt2_y tt2_z tt2_t sqaabb sqaacc =
      let null_x = mul (mul tt1.x tt2_x) sqaacc in
      let null_y = mul (mul tt1.x sqaabb) sqaacc in
      let null_z = mul (mul tt1.x tt2_x) tt2_z in
      let null_t = mul (mul tt1.z sqaabb) tt2_x in
      let xt = mul tt1.x tt2_t in
      let xtz = mul xt tt2_z in
      let xty = mul xt tt2_y in
      let precomp_x = mul xtz tt2_y in
      let precomp_y = mul xtz sqaabb in
      let precomp_z = mul xty sqaacc in
      let sab_sac_z = mul (mul sqaabb sqaacc) tt1.z in
      let precomp_t = mul sab_sac_z tt2_y in
      record {
        alpha = null_x;
        beta = null_y;
        gamma = null_z;
        delta = null_t;
        alpha_inv = precomp_x;
        beta_inv = precomp_y;
        gamma_inv = precomp_z;
        delta_inv = precomp_t;
      }

  unfoldable pub four_isogeny : (Carrier → Carrier) → JacobianPoint k → Jacobian k → StepIsogeny
  four_isogeny sqrt t1 domain =
      let tt1 = hadamard k (squared k t1) in
      let (tt2_x, tt2_y, tt2_z, tt2_t) =
        hadamard4 k (square domain.null.a) (square domain.null.b) (square domain.null.c)
          (square domain.null.d) in
      let sqaabb = sqrt (mul tt2_x tt2_y) in
      let sqaacc = sqrt (mul tt2_x tt2_z) in
      let dual = four_dual tt1 tt2_x tt2_y tt2_z tt2_t sqaabb sqaacc in
      record { codomain = new_jacobian k (dual_null dual); dual = dual; variant = no_outer }

  -- The null point and the inverses of the step of order 2, from `tt2` and the three roots.
  abbrev pub two_dual :
      Carrier → Carrier → Carrier → Carrier → Carrier → Carrier → Carrier → DualThetaNullPoint k
  two_dual tt2_x tt2_y tt2_z tt2_t beta gamma delta =
      let zt = mul tt2_z tt2_t in
      let yt = mul tt2_y tt2_t in
      let yz = mul tt2_y tt2_z in
      let alpha_inv = mul yz tt2_t in
      let beta_inv = mul zt beta in
      let gamma_inv = mul yt gamma in
      let delta_inv = mul yz delta in
      record {
        alpha = tt2_x;
        beta = beta;
        gamma = gamma;
        delta = delta;
        alpha_inv = alpha_inv;
        beta_inv = beta_inv;
        gamma_inv = gamma_inv;
        delta_inv = delta_inv;
      }

  unfoldable pub two_isogeny : (Carrier → Carrier) → Jacobian k → StepIsogeny
  two_isogeny sqrt domain =
      let (na, nb, nc, nd) = hadamard4 k domain.null.a domain.null.b domain.null.c domain.null.d in
      let (tt2_x, tt2_y, tt2_z, tt2_t) =
        hadamard4 k (square na) (square nb) (square nc) (square nd) in
      let beta = sqrt (mul tt2_x tt2_y) in
      let gamma = sqrt (mul tt2_x tt2_z) in
      let delta = sqrt (mul tt2_x tt2_t) in
      let dual = two_dual tt2_x tt2_y tt2_z tt2_t beta gamma delta in
      record { codomain = new_jacobian k (dual_null dual); dual = dual; variant = ultimate_variant }

  -- The closure `scale` of `eval`.
  abbrev pub scale_by : DualThetaNullPoint k → JacobianPoint k → JacobianPoint k
  scale_by dual q = scale k q dual.alpha_inv dual.beta_inv dual.gamma_inv dual.delta_inv

  -- The match of `eval`.
  abbrev pub eval_variant :
      HadamardVariant → DualThetaNullPoint k → JacobianPoint k → JacobianPoint k
  eval_variant standard dual p = hadamard k (scale_by dual (hadamard k (squared k p)))
  eval_variant no_outer dual p = scale_by dual (hadamard k (squared k p))
  eval_variant ultimate_variant dual p = scale_by dual (hadamard k (squared k (hadamard k p)))

  unfoldable pub eval : StepIsogeny → JacobianPoint k → JacobianPoint k
  eval phi p =
      let t = eval_variant phi.variant phi.dual p in
      record { x = t.x; y = t.y; z = t.z; w = t.w; surface = phi.codomain }
