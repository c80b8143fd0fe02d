-- ===== src/Curves/Montgomery.antt =====
-- Montgomery curves y² = x³ + A·x² + x and the three representations of their coefficient, after
-- src/curves/montgomery/mod.rs, with the isomorphisms of src/curves/montgomery/isomorphism.rs built
-- from two curves.
pub mod Laws
use sqisign_selkie.Prelude.{Bool, not, ◌||◌, Option, none, some, if◌then◌else◌}
use sqisign_selkie.Fields.{Field}

module _ (k : Field) where
  open k use {invert, ct_eq, from_small}
  open k.ring use {Carrier, zero, one, add, sub, neg, mul, square}

  -- The affine coefficient.
  abbrev pub Coefficient : Type 0
  Coefficient = Carrier

  unfoldable pub is_singular : Coefficient → Bool
  is_singular a = let two = from_small 2 in ct_eq a two || ct_eq a (neg two)

  pub record ProjectiveCoefficient : Type 0 where
    pub a : Carrier
    pub c : Carrier

  unfoldable pub projective_eq : ProjectiveCoefficient → ProjectiveCoefficient → Bool
  projective_eq p q = ct_eq (mul p.a q.c) (mul q.a p.c)

  unfoldable pub projective_from_affine : Coefficient → ProjectiveCoefficient
  projective_from_affine a = record { a = a; c = one }

  pub record DoublingConstants : Type 0 where
    pub a24 : Carrier
    pub c24 : Carrier

  unfoldable pub normalize : DoublingConstants → DoublingConstants
  normalize d =
      if not (ct_eq d.c24 one)
      then (let inv = invert d.c24 in record { a24 = mul d.a24 inv; c24 = one })
      else d

  unfoldable pub is_normalized : DoublingConstants → Bool
  is_normalized d = ct_eq d.c24 one

  unfoldable pub doubling_from_projective : ProjectiveCoefficient → DoublingConstants
  doubling_from_projective p =
      let two_c = add p.c p.c in
      let four_c = add two_c two_c in
      let four_c_inv = invert four_c in record { a24 = mul (add p.a two_c) four_c_inv; c24 = one }

  unfoldable pub projective_from_doubling : DoublingConstants → ProjectiveCoefficient
  projective_from_doubling d =
      let two_c24 = add d.c24 d.c24 in
      let four_a24 = let t = add d.a24 d.a24 in add t t in
      record { a = sub four_a24 two_c24; c = d.c24 }

  pub record Curve : Type 0 where
    pub affine : Coefficient
    pub projective : ProjectiveCoefficient
    pub doubling : DoublingConstants

  unfoldable pub curve_eq : Curve → Curve → Bool
  curve_eq e e2 = ct_eq e.affine e2.affine

  unfoldable pub curve_from_affine : Coefficient → Curve
  curve_from_affine a =
      let p = projective_from_affine a in
      let d = doubling_from_projective p in record { affine = a; projective = p; doubling = d }

  unfoldable pub curve_from_projective : ProjectiveCoefficient → Curve
  curve_from_projective p =
      let a_affine = mul p.a (invert p.c) in
      let d = doubling_from_projective p in
      record { affine = a_affine; projective = p; doubling = d }

  unfoldable pub curve_from_doubling : DoublingConstants → Curve
  curve_from_doubling d =
      let p = projective_from_doubling d in
      let two = from_small 2 in
      let four = from_small 4 in
      let a_affine = sub (mul (mul four d.a24) (invert d.c24)) two in
      record { affine = a_affine; projective = p; doubling = d }

  unfoldable pub normalize_curve : Curve → Curve
  normalize_curve e = record {
    affine = e.affine;
    projective = e.projective;
    doubling = normalize e.doubling;
  }

  unfoldable pub j_invariant : Curve → Carrier
  j_invariant e =
      let a2 = square e.affine in
      let three = from_small 3 in
      let four = from_small 4 in
      let t = sub a2 three in
      let t_sq = square t in
      let t3 = mul t_sq t in
      let denom = invert (sub a2 four) in
      let c256 = from_small 256 in let num = mul c256 t3 in mul num denom

  -- The right side of the equation of the curve.
  unfoldable pub equation_side : Curve → Carrier → Carrier
  equation_side e x = let x2 = square x in add (add (mul x2 x) (mul x2 e.affine)) x

  unfoldable pub recover_y :
      (Carrier → Bool) → (Carrier → Carrier) → Curve → Carrier → Option Carrier
  recover_y is_square sqrt e x =
      let rhs = equation_side e x in if is_square rhs then some (sqrt rhs) else none

  pub record Isomorphism : Type 0 where
    pub lambda_x : Carrier
    pub lambda_z : Carrier
    pub three_cc_prime : Carrier
    pub ac_prime : Carrier
    pub a_prime_c : Carrier
    pub target : Curve

  -- 2·u³ − 9·u·v² from u, u² and v².
  abbrev pub two_nine : Carrier → Carrier → Carrier → Carrier
  two_nine u u_sq v_sq =
      let nine =
        let t = mul u v_sq in
        let t2 = add t t in let t4 = add t2 t2 in let t8 = add t4 t4 in add t8 t in
      let two_cubed = let t = mul u_sq u in add t t in sub two_cubed nine

  -- 3·v³ − u²·v from v, v² and u².
  abbrev pub three_one : Carrier → Carrier → Carrier → Carrier
  three_one v v_sq u_sq =
      let three_cubed = let t = mul v_sq v in let t2 = add t t in add t2 t in
      sub three_cubed (mul u_sq v)

  -- The constants of the isomorphism from the first curve to the second.
  unfoldable pub isomorphism_constants : Curve → Curve → Isomorphism
  isomorphism_constants e target =
      let a = e.projective.a in
      let c = e.projective.c in
      let a_prime = target.projective.a in
      let c_prime = target.projective.c in
      let lambda_x =
        mul (two_nine a_prime (square a_prime) (square c_prime))
          (three_one c (square c) (square a)) in
      let lambda_z =
        mul (two_nine a (square a) (square c))
          (three_one c_prime (square c_prime) (square a_prime)) in
      let cc_prime = mul c c_prime in
      let three_cc_prime = let t = add cc_prime cc_prime in add t cc_prime in
      record {
        lambda_x = lambda_x;
        lambda_z = lambda_z;
        three_cc_prime = three_cc_prime;
        ac_prime = mul a c_prime;
        a_prime_c = mul a_prime c;
        target = target;
      }

  unfoldable pub isomorphism : Curve → Curve → Option Isomorphism
  isomorphism e target =
      let phi = isomorphism_constants e target in
      if ct_eq phi.lambda_x zero || ct_eq phi.lambda_z zero then none else some phi
