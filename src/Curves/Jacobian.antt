-- ===== src/Curves/Jacobian.antt =====
-- Points with both coordinates, after src/curves/montgomery/jacobian.rs: (x, y, z) stands for the
-- affine point (x/z², y/z³).
pub mod Laws
pub mod Sum
pub mod Chord
use sqisign_selkie.Fields.{Field}
use sqisign_selkie.Curves.Montgomery.{Curve}
use sqisign_selkie.Curves.Point.{ProjectiveXOnlyPoint, from_xz}

module _ (k : Field) where
  open k.ring use {Carrier, add, sub, neg, mul, square}

  pub record JacobianPoint : Type 0 where
    pub x : Carrier
    pub y : Carrier
    pub z : Carrier
    pub curve : Curve k

  unfoldable pub double : JacobianPoint → JacobianPoint
  double p =
      let a = p.curve.affine in
      let zz = square p.z in
      let zzzz = square zz in
      let xx = square p.x in
      let two_a = add a a in
      let two_a_x = mul two_a p.x in
      let inner = add two_a_x zz in
      let m_term = mul inner zz in
      let three_xx = add (add xx xx) xx in
      let m = add three_xx m_term in
      let dx = add p.y p.y in
      let dy = mul p.z m in
      let dx_sq = square dx in
      let dy_sq = square dy in
      let u1 = mul p.x zz in
      let v1 = mul p.y (mul zz p.z) in
      let x3 =
        let a_zzzz = mul a zzzz in let sum = add (add a_zzzz u1) u1 in sub dy_sq (mul dx_sq sum) in
      let y3 =
        let u1_dx_sq = mul u1 dx_sq in
        let dx_cubed = mul dx_sq dx in sub (mul dy (sub u1_dx_sq x3)) (mul v1 dx_cubed) in
      let z3 = mul dx zz in record { x = x3; y = y3; z = z3; curve = p.curve }

  unfoldable pub double_for_theta : JacobianPoint → JacobianPoint
  double_for_theta p =
      let a = p.curve.affine in
      let xx = square p.x in
      let three_xx = add (add xx xx) xx in
      let zz = square p.z in
      let two_ax = add (mul a p.x) (mul a p.x) in
      let alpha = add three_xx (mul zz (add zz two_ax)) in
      let z3 = add (mul p.y p.z) (mul p.y p.z) in
      let z3_sq = square z3 in
      let yy = square p.y in
      let two_yy = add yy yy in
      let four_xyy = mul two_yy (add p.x p.x) in
      let x3 = sub (sub (square alpha) (mul a z3_sq)) (add four_xyy four_xyy) in
      let four_yyyy = square two_yy in
      let y3 = sub (mul alpha (sub four_xyy x3)) (add four_yyyy four_yyyy) in
      record { x = x3; y = y3; z = z3; curve = p.curve }

  unfoldable pub x_add_sub :
      JacobianPoint → JacobianPoint → ProjectiveXOnlyPoint k × ProjectiveXOnlyPoint k
  x_add_sub p q =
      let a = p.curve.affine in
      let t0 = square p.z in
      let t1 = square q.z in
      let t2 = mul p.x t1 in
      let t3 = mul t0 q.x in
      let t4 = mul p.y q.z in
      let t4 = mul t4 t1 in
      let t5 = mul p.z q.y in
      let t5 = mul t5 t0 in
      let t0 = mul t0 t1 in
      let t6 = mul t4 t5 in
      let v = add t6 t6 in
      let t4_sq = square t4 in
      let t5_sq = square t5 in
      let sum_y2 = add t4_sq t5_sq in
      let sum_x = add t2 t3 in
      let lambda = sub t2 t3 in
      let lambda_sq = square lambda in
      let a_t0 = mul a t0 in
      let gamma = mul (add sum_x a_t0) lambda_sq in
      let u = sub sum_y2 gamma in
      let w = mul lambda_sq t0 in (from_xz k (add u v) w p.curve, from_xz k (sub u v) w p.curve)

  unfoldable pub opposite_point : JacobianPoint → JacobianPoint
  opposite_point p = record { x = p.x; y = neg p.y; z = p.z; curve = p.curve }

  unfoldable pub to_xz : JacobianPoint → ProjectiveXOnlyPoint k
  to_xz jac = let z_sq = square jac.z in from_xz k jac.x z_sq jac.curve
