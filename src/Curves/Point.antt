-- ===== src/Curves/Point.antt =====
-- Points on the x-line of a curve in projective coordinates, after src/curves/montgomery/point.rs, and
-- their images under an isomorphism of src/curves/montgomery/isomorphism.rs.
pub mod Laws
pub mod ShortForm
pub mod Isomorphic
pub mod Ladder
use sqisign_selkie.Prelude.{Bool, true, false, not, List, [], ◌∷◌, if◌then◌else◌}
use sqisign_selkie.Fields.{Field}
use sqisign_selkie.Curves.Montgomery.{Curve, Isomorphism}

module _ (k : Field) where
  open k use {invert, ct_eq}
  open k.ring use {Carrier, zero, one, add, sub, neg, mul, square}

  pub record ProjectiveXOnlyPoint : Type 0 where
    pub x : Carrier
    pub z : Carrier
    pub curve : Curve k

  unfoldable pub from_xz : Carrier → Carrier → Curve k → ProjectiveXOnlyPoint
  from_xz x z curve = record { x = x; z = z; curve = curve }

  unfoldable pub identity : Curve k → ProjectiveXOnlyPoint
  identity curve = record { x = one; z = zero; curve = curve }

  unfoldable pub to_affine_x : ProjectiveXOnlyPoint → Carrier
  to_affine_x p = mul p.x (invert p.z)

  unfoldable pub from_affine_x : Carrier → Curve k → ProjectiveXOnlyPoint
  from_affine_x x curve = record { x = x; z = one; curve = curve }

  unfoldable pub is_identity : ProjectiveXOnlyPoint → Bool
  is_identity p = ct_eq p.z zero

  unfoldable pub point_eq : ProjectiveXOnlyPoint → ProjectiveXOnlyPoint → Bool
  point_eq p q = ct_eq (mul p.x q.z) (mul q.x p.z)

  unfoldable pub double : ProjectiveXOnlyPoint → ProjectiveXOnlyPoint
  double p =
      let t0 = square (add p.x p.z) in
      let t1 = square (sub p.x p.z) in
      let t2 = sub t0 t1 in
      let t1_c24 = mul t1 p.curve.doubling.c24 in
      let x2 = mul t0 t1_c24 in
      let z2 = mul t2 (add (mul t2 p.curve.doubling.a24) t1_c24) in
      record { x = x2; z = z2; curve = p.curve }

  unfoldable pub double_unnormalized : ProjectiveXOnlyPoint → ProjectiveXOnlyPoint
  double_unnormalized p =
      let pc = p.curve.projective in
      let two_c = add pc.c pc.c in
      let a24 = add pc.a two_c in
      let c24 = add two_c two_c in
      let t0 = square (add p.x p.z) in
      let t1 = square (sub p.x p.z) in
      let t2 = sub t0 t1 in
      let t1_c24 = mul t1 c24 in
      let x2 = mul t0 t1_c24 in
      let z2 = mul t2 (add (mul t2 a24) t1_c24) in record { x = x2; z = z2; curve = p.curve }

  unfoldable pub double_e0 : ProjectiveXOnlyPoint → ProjectiveXOnlyPoint
  double_e0 p =
      let t0 = square (add p.x p.z) in
      let t1 = square (sub p.x p.z) in
      let t2 = sub t0 t1 in
      let t1_doubled = add t1 t1 in
      let x2 = mul t0 t1_doubled in
      let z2 = mul t2 (add t1_doubled t2) in record { x = x2; z = z2; curve = p.curve }

  unfoldable pub differential_add :
      ProjectiveXOnlyPoint → ProjectiveXOnlyPoint → ProjectiveXOnlyPoint → ProjectiveXOnlyPoint
  differential_add p q difference =
      let t0 = mul (add p.x p.z) (sub q.x q.z) in
      let t1 = mul (sub p.x p.z) (add q.x q.z) in
      let sum = square (add t0 t1) in
      let diff = square (sub t0 t1) in
      record { x = mul difference.z sum; z = mul difference.x diff; curve = p.curve }

  unfoldable pub differential_double_add :
      ProjectiveXOnlyPoint
      → ProjectiveXOnlyPoint
      → ProjectiveXOnlyPoint
      → ProjectiveXOnlyPoint × ProjectiveXOnlyPoint
  differential_double_add p q difference =
      let sum_p = add p.x p.z in
      let diff_p = sub p.x p.z in
      let t0 = square sum_p in
      let t1 = square diff_p in
      let t2 = sub t0 t1 in
      let t1_c24 = mul t1 p.curve.doubling.c24 in
      let dbl_x = mul t0 t1_c24 in
      let dbl_z = mul t2 (add (mul t2 p.curve.doubling.a24) t1_c24) in
      let u = mul sum_p (sub q.x q.z) in
      let v = mul diff_p (add q.x q.z) in
      let add_x = mul difference.z (square (add u v)) in
      let add_z = mul difference.x (square (sub u v)) in
      (
        record { x = dbl_x; z = dbl_z; curve = p.curve },
        record { x = add_x; z = add_z; curve = p.curve },
      )

  -- The coefficients of the quadratic whose roots are the sum and the difference, with their scale.
  unfoldable pub b_xx : (Carrier → Carrier) → ProjectiveXOnlyPoint → ProjectiveXOnlyPoint → Carrier
  b_xx conjugate p q =
      mul (mul (square (conjugate p.z)) (square (conjugate q.z)))
        (square (sub (mul p.x q.x) (mul p.z q.z)))

  unfoldable pub b_xz : (Carrier → Carrier) → ProjectiveXOnlyPoint → ProjectiveXOnlyPoint → Carrier
  b_xz conjugate p q =
      let a = p.curve.affine in
      let xpxq = mul p.x q.x in
      let zpzq = mul p.z q.z in
      let xpzq = mul p.x q.z in
      let zpxq = mul p.z q.x in
      mul (mul (square (conjugate p.z)) (square (conjugate q.z)))
        (add (mul (add xpxq zpzq) (add xpzq zpxq)) (mul (add a a) (mul xpxq zpzq)))

  unfoldable pub b_zz : (Carrier → Carrier) → ProjectiveXOnlyPoint → ProjectiveXOnlyPoint → Carrier
  b_zz conjugate p q =
      mul (mul (square (conjugate p.z)) (square (conjugate q.z)))
        (square (sub (mul p.x q.z) (mul p.z q.x)))

  unfoldable pub projective_difference :
      (Carrier → Carrier)
      → (Carrier → Carrier)
      → ProjectiveXOnlyPoint
      → ProjectiveXOnlyPoint
      → ProjectiveXOnlyPoint
  projective_difference conjugate sqrt p q =
      let xx = b_xx conjugate p q in
      let xz = b_xz conjugate p q in
      let zz = b_zz conjugate p q in
      let discriminant = sub (square xz) (mul xx zz) in
      let delta = sqrt discriminant in record { x = add delta xz; z = zz; curve = p.curve }

  -- The swap of two points where the choice is true: each keeps its own curve.
  unfoldable pub conditional_swap :
      Bool
      → ProjectiveXOnlyPoint
      → ProjectiveXOnlyPoint
      → ProjectiveXOnlyPoint × ProjectiveXOnlyPoint
  conditional_swap false p q = (p, q)
  conditional_swap true p q =
      (record { x = q.x; z = q.z; curve = p.curve }, record { x = p.x; z = p.z; curve = q.curve })

  abbrev pub differ : Bool → Bool → Bool
  differ false c = c
  differ true c = not c

  -- The loop on the bits, most significant first, with the bit of the step before.
  unfoldable pub ladder_loop :
      ProjectiveXOnlyPoint
      → List Bool
      → Bool
      → ProjectiveXOnlyPoint
      → ProjectiveXOnlyPoint
      → ProjectiveXOnlyPoint
  ladder_loop p [] prev_bit r0 r1 = (conditional_swap prev_bit r0 r1).0
  ladder_loop p (cur_bit ∷ bits) prev_bit r0 r1 =
      let (s0, s1) = conditional_swap (differ prev_bit cur_bit) r0 r1 in
      let (t0, t1) = differential_double_add s0 s1 p in ladder_loop p bits cur_bit t0 t1

  unfoldable pub scalar_mul : List Bool → ProjectiveXOnlyPoint → ProjectiveXOnlyPoint
  scalar_mul bits p = ladder_loop p bits false (identity p.curve) p

  unfoldable pub clear_cofactor : ProjectiveXOnlyPoint → ProjectiveXOnlyPoint
  clear_cofactor p = ladder_loop p (true ∷ false ∷ true ∷ []) false (identity p.curve) p

  unfoldable pub eval_isomorphism : Isomorphism k → ProjectiveXOnlyPoint → ProjectiveXOnlyPoint
  eval_isomorphism phi p =
      let term = add (mul phi.three_cc_prime p.x) (mul phi.ac_prime p.z) in
      let new_x = sub (mul phi.lambda_x term) (mul phi.lambda_z (mul phi.a_prime_c p.z)) in
      let new_z = mul phi.lambda_z (mul phi.three_cc_prime p.z) in from_xz new_x new_z phi.target
