-- ===== src/Curves/Isogeny.antt =====
-- The isogenies of degrees 2 and 4 of src/curves/isogeny/mod.rs: their codomains and their values.
pub mod Laws
pub mod Chain
pub mod Strategy
use sqisign_selkie.Fields.{Field}
use sqisign_selkie.Curves.Montgomery.{Curve, DoublingConstants, curve_from_doubling}
use sqisign_selkie.Curves.Point.{ProjectiveXOnlyPoint, from_xz}

module _ (k : Field) where
  open k use {invert, from_small}
  open k.ring use {Carrier, add, sub, neg, mul, square}

  pub record TwoIsogeny : Type 0 where
    pub codomain : Curve k
    pub kernel : ProjectiveXOnlyPoint k

  unfoldable pub two_from_kernel : ProjectiveXOnlyPoint k → TwoIsogeny
  two_from_kernel p =
      let xp_sq = square p.x in
      let zp_sq = square p.z in
      let a24 = sub zp_sq xp_sq in
      let c24 = zp_sq in
      record { codomain = curve_from_doubling k (record { a24 = a24; c24 = c24 }); kernel = p }

  unfoldable pub eval_two : TwoIsogeny → ProjectiveXOnlyPoint k → ProjectiveXOnlyPoint k
  eval_two phi q =
      let t0 = add phi.kernel.x phi.kernel.z in
      let t1 = sub phi.kernel.x phi.kernel.z in
      let t2 = add q.x q.z in
      let t3 = sub q.x q.z in
      let t0 = mul t0 t3 in
      let t1 = mul t1 t2 in
      let t2 = add t0 t1 in let t3 = sub t0 t1 in from_xz k (mul q.x t2) (mul q.z t3) phi.codomain

  pub record TwoIsogenySingular : Type 0 where
    pub codomain : Curve k
    pub c0 : Carrier
    pub c1 : Carrier

  unfoldable pub singular_from_curve : (Carrier → Carrier) → Curve k → TwoIsogenySingular
  singular_from_curve sqrt curve =
      let a24 = curve.doubling.a24 in
      let c24 = curve.doubling.c24 in
      let t0 = sub (add a24 a24) c24 in
      let t0 = add t0 t0 in
      let t1 = invert c24 in
      let t0 = mul t0 t1 in
      let c1 = t0 in
      let a24_prime = add t0 t0 in
      let t0 = square t0 in
      let four = from_small 4 in
      let t0 = sub t0 four in
      let t0 = sqrt t0 in
      let c0 = neg t0 in
      let c24_prime = add t0 t0 in
      let a24_prime = add a24_prime c24_prime in
      let c24_prime = add c24_prime c24_prime in
      record {
        codomain = curve_from_doubling k (record { a24 = a24_prime; c24 = c24_prime });
        c0 = c0;
        c1 = c1;
      }

  unfoldable pub eval_singular :
      TwoIsogenySingular → ProjectiveXOnlyPoint k → ProjectiveXOnlyPoint k
  eval_singular phi q =
      let t0 = mul q.x q.z in
      let t1 = add q.x (mul phi.c1 q.z) in
      let t1 = mul t1 q.x in
      let xq = add (square q.z) t1 in let zq = mul t0 phi.c0 in from_xz k xq zq phi.codomain

  pub record FourIsogeny : Type 0 where
    pub codomain : Curve k
    pub c0 : Carrier
    pub c1 : Carrier
    pub c2 : Carrier

  unfoldable pub four_from_kernel : ProjectiveXOnlyPoint k → FourIsogeny
  four_from_kernel p =
      let zp_sq = square p.z in
      let c1 = sub p.x p.z in
      let c2 = add p.x p.z in
      let xp_sq = square p.x in
      let t3 = add zp_sq xp_sq in
      let t4 = sub zp_sq xp_sq in
      let a24 = mul t3 t4 in
      let c24 = square zp_sq in
      let c0 = let d = add zp_sq zp_sq in add d d in
      record {
        codomain = curve_from_doubling k (record { a24 = a24; c24 = c24 });
        c0 = c0;
        c1 = c1;
        c2 = c2;
      }

  unfoldable pub eval_four : FourIsogeny → ProjectiveXOnlyPoint k → ProjectiveXOnlyPoint k
  eval_four phi q =
      let t0 = add q.x q.z in
      let t1 = sub q.x q.z in
      let xq = mul t0 phi.c1 in
      let zq = mul t1 phi.c2 in
      let t0 = mul (mul t0 t1) phi.c0 in
      let t1 = square (add xq zq) in
      let zq = square (sub xq zq) in
      let xq = mul (add t0 t1) t1 in let zq = mul zq (sub t0 zq) in from_xz k xq zq phi.codomain
