-- ===== src/Tests/Curves.antt =====
-- The theorems on curves at the curve y² = x³ + x over the fields with three and with nine elements.
use sqisign_selkie.Prelude.{◌≡◌, ◌≢◌, ◌⊎◌, ◌∙◌, sym, refl, ap, some, true, false, [], ◌∷◌}
use sqisign_selkie.Fields.Fp2.{new, i, one, zero, add, sub, neg, mul, square}
use sqisign_selkie.Fields.Fp2.Norm.{fp2_field}
use sqisign_selkie.Curves.Montgomery.{
  Curve, DoublingConstants, curve_from_affine, projective_from_affine, doubling_from_projective,
  Isomorphism, isomorphism, isomorphism_constants,
}
use sqisign_selkie.Curves.Montgomery.Laws.{IsCurve, Doubles, two, four, curve_from_affine-IsCurve}
use sqisign_selkie.Curves.Point.{
  ProjectiveXOnlyPoint, double, double_e0, projective_difference, b_xx, b_xz, b_zz, point_eq,
  scalar_mul, identity, from_xz, eval_isomorphism,
}
use sqisign_selkie.Curves.Point.Laws.{numerator, denominator, double_value, double_e0-double}
use sqisign_selkie.Curves.Point.ShortForm.{three, SameJInvariant}
use sqisign_selkie.Curves.Point.Isomorphic.{
  cubic_factor, denominator_factor, eval_isomorphism-cubic,
}
use sqisign_selkie.Curves.Point.Ladder.{textbook_ladder, scalar_mul-textbook, point_eq_trans}
use sqisign_selkie.Curves.Jacobian.{JacobianPoint, double_for_theta, to_xz, x_add_sub}
use sqisign_selkie.Curves.Jacobian.Laws.{
  IsOnCurve, double_for_theta-IsOnCurve, to_xz-double_for_theta,
}
use sqisign_selkie.Curves.Jacobian.Sum.{projective_difference-x_add_sub}
use sqisign_selkie.Curves.Isogeny.{two_from_kernel, eval_two, singular_from_curve, eval_singular}
use sqisign_selkie.Curves.Isogeny.Laws.{cubic, OrderTwo, eval_two-cubic, eval_singular-cubic}
use sqisign_selkie.Tests.Field5.{g0, g1, g4, field5, mul as mul5}
use sqisign_selkie.Tests.Field3.{f0, f1, f2, mul as mul3}
use sqisign_selkie.Tests.Instances.{fp3, field3}

two3_ne_zero : two field3 ≢ f0
two3_ne_zero e = cc

abbrev pub e3 : Curve field3
e3 = curve_from_affine field3 f0

e3-IsCurve : IsCurve field3 e3
e3-IsCurve = curve_from_affine-IsCurve field3 f0 two3_ne_zero

abbrev pub point3 : ProjectiveXOnlyPoint field3
point3 = record { x = f2; z = f1; curve = e3 }

abbrev constants3 : DoublingConstants field3
constants3 = record { a24 = f1; c24 = f2 }

constants3_ne_zero : f2 ≢ f0
constants3_ne_zero e = cc

double_value_example :
    ((double field3 point3).x ≡ mul3 (numerator field3 f2 f1) e3.doubling.c24)
    × ((double field3 point3).z ≡ mul3 (denominator field3 e3.affine f2 f1) e3.doubling.c24)
double_value_example = double_value field3 point3 e3-IsCurve

normalized3 : e3.doubling.c24 ≡ f1
unfolding curve_from_affine doubling_from_projective
normalized3 = refl

coefficient3 : e3.affine ≡ f0
unfolding curve_from_affine
coefficient3 = refl

double_e0-double_example :
    ((double_e0 field3 point3).x ≡ mul3 (two field3) (double field3 point3).x)
    × ((double_e0 field3 point3).z ≡ mul3 (two field3) (double field3 point3).z)
double_e0-double_example = double_e0-double field3 point3 e3-IsCurve coefficient3 normalized3

scalar_mul-textbook_example :
    scalar_mul field3 (true ∷ false ∷ true ∷ []) point3
    ≡ textbook_ladder field3 point3 (true ∷ false ∷ true ∷ []) (identity field3 e3) point3
scalar_mul-textbook_example = scalar_mul-textbook field3 (true ∷ false ∷ true ∷ []) point3

abbrev pub other3 : ProjectiveXOnlyPoint field3
other3 = record { x = f0; z = f1; curve = e3 }

abbrev jacobian3 : JacobianPoint field3
jacobian3 = record { x = f2; y = f1; z = f1; curve = e3 }

jacobian3-IsOnCurve : IsOnCurve field3 jacobian3
unfolding IsOnCurve curve_from_affine
jacobian3-IsOnCurve = refl

double_for_theta-IsOnCurve_example : IsOnCurve field3 (double_for_theta field3 jacobian3)
double_for_theta-IsOnCurve_example = double_for_theta-IsOnCurve field3 jacobian3 jacobian3-IsOnCurve

to_xz-double_for_theta_example :
    point_eq field3
      (to_xz field3 (double_for_theta field3 jacobian3))
      (double field3 (to_xz field3 jacobian3))
    ≡ true
to_xz-double_for_theta_example =
    to_xz-double_for_theta field3 jacobian3 e3-IsCurve jacobian3-IsOnCurve

-- The field with nine elements, where the points of order two of the curve are.
abbrev e9 : Curve (fp2_field fp3)
e9 = curve_from_affine (fp2_field fp3) (zero fp3)

abbrev kernel9 : ProjectiveXOnlyPoint (fp2_field fp3)
kernel9 = record { x = i fp3; z = one fp3; curve = e9 }

abbrev point9 : ProjectiveXOnlyPoint (fp2_field fp3)
point9 = record { x = new fp3 f1 f1; z = one fp3; curve = e9 }

kernel9-OrderTwo : OrderTwo (fp2_field fp3) kernel9
unfolding curve_from_affine projective_from_affine add mul square
kernel9-OrderTwo = refl

eval_two-cubic_example :
    let phi = two_from_kernel (fp2_field fp3) kernel9 in
    let s = mul fp3 (i fp3) (
      add fp3
        (sub fp3
          (mul fp3 (one fp3) (square fp3 point9.x))
          (mul fp3 (two (fp2_field fp3)) (mul fp3 (i fp3) (mul fp3 point9.x (one fp3)))))
        (mul fp3 (one fp3) (square fp3 (one fp3)))) in
    mul fp3 e9.projective.c
      (cubic (fp2_field fp3) phi.codomain.projective (eval_two (fp2_field fp3) phi point9))
    ≡ mul fp3
        (mul fp3
          (mul fp3 (square fp3 (four (fp2_field fp3))) (mul fp3 (i fp3) (one fp3)))
          (square fp3 s))
        (cubic (fp2_field fp3) e9.projective point9)
eval_two-cubic_example = eval_two-cubic (fp2_field fp3) kernel9 point9 kernel9-OrderTwo

two9_ne_zero : two (fp2_field fp3) ≢ zero fp3
unfolding add
two9_ne_zero e = let g : f2 ≡ f0 = ap (λ t. t.a) e in cc

e9-Doubles : Doubles (fp2_field fp3) e9.doubling e9.affine
unfolding IsCurve
e9-Doubles = (curve_from_affine-IsCurve (fp2_field fp3) (zero fp3) two9_ne_zero).1

root9 : square fp3 (i fp3) ≡ sub fp3 (square fp3 e9.affine) (four (fp2_field fp3))
unfolding curve_from_affine square sub add
root9 = refl

eval_singular-cubic_example :
    let disc = sub fp3 (square fp3 e9.affine) (four (fp2_field fp3)) in
    let phi = singular_from_curve (fp2_field fp3) (λ d. i fp3) e9 in
    cubic (fp2_field fp3) phi.codomain.projective (eval_singular (fp2_field fp3) phi point9)
    ≡ neg fp3 (
        mul fp3
          (mul fp3
            (mul fp3 (four (fp2_field fp3)) disc)
            (square fp3 (sub fp3 (square fp3 point9.x) (square fp3 (one fp3)))))
          (mul fp3 (mul fp3 point9.x (one fp3)) (
            add fp3
              (add fp3 (square fp3 point9.x) (mul fp3 e9.affine (mul fp3 point9.x (one fp3))))
              (square fp3 (one fp3)))))
eval_singular-cubic_example =
    eval_singular-cubic (fp2_field fp3) (λ d. i fp3) e9 point9 e9-Doubles root9

point_eq_trans_example : point_eq field3 point3 point3 ≡ true
unfolding point_eq
point_eq_trans_example = point_eq_trans field3 point3 point3 point3 (λ e. cc) refl refl

abbrev left9 : JacobianPoint (fp2_field fp3)
left9 = record { x = new fp3 f1 f1; y = i fp3; z = one fp3; curve = e9 }

abbrev right9 : JacobianPoint (fp2_field fp3)
right9 = record { x = new fp3 f2 f0; y = one fp3; z = one fp3; curve = e9 }

left9-IsOnCurve : IsOnCurve (fp2_field fp3) left9
unfolding IsOnCurve curve_from_affine add mul square
left9-IsOnCurve = refl

right9-IsOnCurve : IsOnCurve (fp2_field fp3) right9
unfolding IsOnCurve curve_from_affine add mul square
right9-IsOnCurve = refl

b_zz9 :
    b_zz (fp2_field fp3) (λ x. x) (to_xz (fp2_field fp3) left9) (to_xz (fp2_field fp3) right9)
    ≡ i fp3
unfolding b_zz to_xz from_xz add sub mul square
b_zz9 = refl

b_zz9_ne_zero :
    b_zz (fp2_field fp3) (λ x. x) (to_xz (fp2_field fp3) left9) (to_xz (fp2_field fp3) right9)
    ≢ zero fp3
b_zz9_ne_zero e = let g : f1 ≡ f0 = ap (λ t. t.b) (sym b_zz9 ∙ e) in cc

root_of_discriminant9 :
    let p = to_xz (fp2_field fp3) left9 in
    let q = to_xz (fp2_field fp3) right9 in
    square fp3 (i fp3)
    ≡ sub fp3
        (square fp3 (b_xz (fp2_field fp3) (λ x. x) p q))
        (mul fp3 (b_xx (fp2_field fp3) (λ x. x) p q) (b_zz (fp2_field fp3) (λ x. x) p q))
unfolding b_xx b_xz b_zz to_xz from_xz curve_from_affine add sub mul square
root_of_discriminant9 = refl

projective_difference-x_add_sub_example :
    let k = fp2_field fp3 in
    let r = projective_difference k (λ x. x) (λ d. i fp3) (to_xz k left9) (to_xz k right9) in
    let (first, second) = x_add_sub k left9 right9 in
    (r.z ≢ zero fp3) × ((point_eq k r first ≡ true) ⊎ (point_eq k r second ≡ true))
projective_difference-x_add_sub_example =
    projective_difference-x_add_sub (fp2_field fp3) (λ x. x) (λ d. i fp3) left9 right9 refl
      left9-IsOnCurve right9-IsOnCurve b_zz9_ne_zero root_of_discriminant9

-- Two curves with opposite coefficients over the field with five elements.
abbrev plus5 : Curve field5
plus5 = curve_from_affine field5 g1

abbrev minus5 : Curve field5
minus5 = curve_from_affine field5 g4

abbrev point5 : ProjectiveXOnlyPoint field5
point5 = record { x = g1; z = g1; curve = plus5 }

abbrev iso5 : Isomorphism field5
iso5 = isomorphism_constants field5 plus5 minus5

iso5-found : isomorphism field5 plus5 minus5 ≡ some iso5
unfolding isomorphism isomorphism_constants curve_from_affine projective_from_affine
iso5-found = refl

same5 : SameJInvariant field5 plus5.projective minus5.projective
unfolding curve_from_affine projective_from_affine
same5 = refl

one5 : (plus5.projective.c ≡ g1) × (minus5.projective.c ≡ g1)
unfolding curve_from_affine projective_from_affine
one5 = (refl, refl)

three5_ne_zero : three field5 ≢ g0
three5_ne_zero e = cc

plus5_ne_zero : plus5.projective.c ≢ g0
plus5_ne_zero e = let g : g1 ≡ g0 = sym one5.0 ∙ e in cc

minus5_ne_zero : minus5.projective.c ≢ g0
minus5_ne_zero e = let g : g1 ≡ g0 = sym one5.1 ∙ e in cc

eval_isomorphism-cubic_example :
    let r = eval_isomorphism field5 iso5 point5 in
    (cubic field5 minus5.projective r
      ≡ mul5 (cubic_factor field5 plus5 minus5 iso5) (cubic field5 plus5.projective point5))
    × (r.z ≡ mul5 (denominator_factor field5 plus5 minus5 iso5) g1)
    × (cubic_factor field5 plus5 minus5 iso5 ≢ g0)
    × (denominator_factor field5 plus5 minus5 iso5 ≢ g0)
eval_isomorphism-cubic_example =
    eval_isomorphism-cubic field5 plus5 minus5 iso5 point5 iso5-found same5 three5_ne_zero
      plus5_ne_zero minus5_ne_zero
