-- ===== src/Tests/Surfaces.antt =====
-- Theta coordinates over the fields with three and with nine elements.
use sqisign_selkie.Prelude.{List, ◌≡◌, ◌≢◌, ◌<◌, ◌≤◌, ◌⊎◌, refl, ap, none, some, [], ◌∷◌}
use sqisign_selkie.Fields.Fp2.{Fp2, one, zero, i, neg, square, add, sub, mul, ct_eq}
use sqisign_selkie.Fields.Fp2.Norm.{fp2_field}
use sqisign_selkie.Curves.Jacobian.{JacobianPoint as CurvePoint, x_add_sub}
use sqisign_selkie.Curves.Jacobian.Chord.{chord, x_add_sub-chord}
use sqisign_selkie.Surfaces.{
  ThetaNullPoint, JacobianPoint, Jacobian, hadamard4, hadamard, squared, new_jacobian, precompute,
  double, apply_null, GluingMatrix,
}
use sqisign_selkie.Surfaces.Laws.{null_as_point, IsMultiple, double-null}
use sqisign_selkie.Surfaces.Step.{
  EightTorsionStepKernel, interior, eight_isogeny, two_isogeny, four_isogeny, eval,
}
use sqisign_selkie.Surfaces.Step.Laws.{eval-eight_isogeny, eval-two_isogeny, eval-four_isogeny}
use sqisign_selkie.Surfaces.Gluing.{GluingKernel, batch_invert}
use sqisign_selkie.Surfaces.Gluing.Laws.{batch_invert-map}
use sqisign_selkie.Surfaces.Splitting.{
  splitting_index_count, u_value, count_loop, chosen_matrix, splitting_matrix, get_index_splitting,
  split_by,
}
use sqisign_selkie.Surfaces.Splitting.Laws.{
  two, IsProduct, splitting_isogeny-some, splitting_isogeny-IsProduct,
}
use sqisign_selkie.Surfaces.Gluing.{ProductPoint}
use sqisign_selkie.Surfaces.Step.{StepIsogeny}
use sqisign_selkie.Surfaces.Chain.{ThetaPair, Kernel}
use sqisign_selkie.Surfaces.Chain.Tail.{
  glue_and_walk_interior, tail_steps, isogeny_inner_no_extra_torsion,
}
use sqisign_selkie.Surfaces.Chain.Tail.Total.{isogeny_inner_no_extra_torsion_total}
use sqisign_selkie.Tests.Field3.{f0, f1, f2, mul as mul3, add as add3}
use sqisign_selkie.Tests.Instances.{fp3, field3}
use sqisign_selkie.Tests.Curves.{e3, point3}

abbrev null3 : ThetaNullPoint field3
null3 = record { a = f1; b = f2; c = f1; d = f1 }

double-null_example :
    let h = hadamard4 field3 (mul3 f1 f1) (mul3 f2 f2) (mul3 f1 f1) (mul3 f1 f1) in
    IsMultiple field3
      (double field3 (null_as_point field3 null3))
      (mul3
        (add3 f2 f2)
        (mul3 (mul3 (mul3 f1 f2) (mul3 f1 f1)) (mul3 (mul3 h.0 h.1) (mul3 h.2 h.3))))
      null3
double-null_example = double-null field3 null3

abbrev corner3 : ThetaNullPoint field3
corner3 = record { a = f1; b = f0; c = f0; d = f0 }

abbrev kernel3 : EightTorsionStepKernel field3
kernel3 = interior (null_as_point field3 corner3) (null_as_point field3 corner3)

eval-eight_isogeny_example :
    IsMultiple field3
      (eval field3 (eight_isogeny field3 kernel3) (null_as_point field3 corner3))
      (mul3 f1 f1)
      (eight_isogeny field3 kernel3).codomain.null
unfolding hadamard squared hadamard4
eval-eight_isogeny_example =
    eval-eight_isogeny field3 kernel3 corner3 f1 f1 f1 f1 f1 f1 f1 f1 refl refl refl

eval-two_isogeny_example :
    let n = hadamard4 field3 f1 f2 f1 f1 in
    let t = hadamard4 field3 (mul3 n.0 n.0) (mul3 n.1 n.1) (mul3 n.2 n.2) (mul3 n.3 n.3) in
    let phi = two_isogeny field3 (λ x. x) (new_jacobian field3 null3) in
    IsMultiple field3
      (eval field3 phi (null_as_point field3 null3))
      (mul3 (mul3 t.1 t.2) t.3)
      phi.codomain.null
eval-two_isogeny_example = eval-two_isogeny field3 (λ x. x) null3

eval-four_isogeny_example :
    let t = hadamard4 field3 f1 f0 f0 f0 in
    let phi =
      four_isogeny field3 (λ x. x) (null_as_point field3 null3) (new_jacobian field3 corner3) in
    let image = eval field3 phi (null_as_point field3 corner3) in
    let s = mul3 (mul3 t.1 t.2) t.3 in
    (mul3 (mul3 t.0 t.2) image.x ≡ mul3 s phi.codomain.null.a)
    × (mul3 (mul3 t.0 t.2) image.y ≡ mul3 s phi.codomain.null.b)
    × (mul3 (mul3 t.0 t.2) image.z ≡ mul3 s phi.codomain.null.c)
    × (mul3 (mul3 t.0 t.2) image.w ≡ mul3 s phi.codomain.null.d)
unfolding hadamard4
eval-four_isogeny_example =
    eval-four_isogeny field3 (λ x. x) (null_as_point field3 null3) corner3 refl

two_ne_zero : f2 ≢ f0
two_ne_zero e = cc

one_ne_zero : f1 ≢ f0
one_ne_zero e = cc

batch_invert-map_example : batch_invert field3 (f1 ∷ f2 ∷ f2 ∷ []) ≡ f1 ∷ f2 ∷ f2 ∷ []
batch_invert-map_example =
    batch_invert-map field3 (f1 ∷ f2 ∷ f2 ∷ []) (one_ne_zero, (two_ne_zero, (two_ne_zero, tt)))

abbrev curve_point3 : CurvePoint field3
curve_point3 = record { x = f2; y = f1; z = f1; curve = e3 }

abbrev second3 : CurvePoint field3
second3 = record { x = f0; y = f1; z = f1; curve = e3 }

x_add_sub-chord_example :
    let (first, second) = x_add_sub field3 curve_point3 second3 in
    (second.x ≡ mul3 (chord field3 e3.affine f2 f1 f0 f1) second.z)
    × (first.x ≡ mul3 (chord field3 e3.affine f2 f1 f0 f2) first.z)
x_add_sub-chord_example = x_add_sub-chord field3 curve_point3 second3 refl refl one_ne_zero

abbrev gluing3 : GluingKernel field3
gluing3 = record {
  t1 = (point3, point3);
  t1_jac = (curve_point3, second3);
  t2 = (point3, point3);
  t2_jac = (second3, curve_point3);
}

abbrev null9 : ThetaNullPoint (fp2_field fp3)
null9 = record { a = zero fp3; b = i fp3; c = i fp3; d = i fp3 }

counted9 : splitting_index_count (fp2_field fp3) null9 ≡ 1
unfolding splitting_index_count count_loop u_value mul add sub ct_eq
counted9 = refl

i9_root : square fp3 (i fp3) ≡ neg fp3 (one fp3)
unfolding square neg
i9_root = refl

two9_ne_zero : two (fp2_field fp3) ≢ zero fp3
unfolding add
two9_ne_zero e = two_ne_zero (ap (λ (x : Fp2 fp3). x.a) e)

abbrev surface9 : Jacobian (fp2_field fp3)
surface9 = record { null = null9; precomp = precompute (fp2_field fp3) null9 }

splitting_isogeny-IsProduct_example :
    let k = fp2_field fp3 in
    let m = splitting_matrix k (i fp3) (get_index_splitting k null9) in
    (splitting_index_count k null9 ≡ 1)
    × (m' : GluingMatrix k) × (chosen_matrix k (i fp3) null9 none ≡ some m')
    × IsProduct k (apply_null k m' null9)
    × (split_by k null9 [] m ≡ split_by k null9 [] m')
splitting_isogeny-IsProduct_example =
    splitting_isogeny-IsProduct (fp2_field fp3) (i fp3) surface9 [] none
      (split_by (fp2_field fp3) null9 []
        (splitting_matrix (fp2_field fp3) (i fp3) (get_index_splitting (fp2_field fp3) null9)))
      i9_root two9_ne_zero (splitting_isogeny-some (fp2_field fp3) (i fp3) surface9 [] counted9)

abbrev kernel_pair3 : Kernel field3
kernel_pair3 = record {
  domain = record { e1 = e3; e2 = e3 };
  p = (curve_point3, second3);
  q = (second3, curve_point3);
}

abbrev pushed3 : List (ProductPoint field3)
pushed3 = (point3, point3) ∷ []

isogeny_inner_no_extra_torsion_total_example :
    ((7 < 4)
      × (isogeny_inner_no_extra_torsion field3 (λ x. x) f1 kernel_pair3 7 pushed3 none ≡ some none))
    ⊎ ((4 ≤ 7)
        × (last : StepIsogeny field3 × ThetaPair field3) × (c : Jacobian field3) × (qs : List
            (JacobianPoint field3))
        × (glue_and_walk_interior field3 kernel_pair3 5 pushed3 ≡ some (some last, c, qs))
        × (isogeny_inner_no_extra_torsion field3 (λ x. x) f1 kernel_pair3 7 pushed3 none
            ≡ some (tail_steps field3 (λ x. x) f1 (some last) c qs none)))
isogeny_inner_no_extra_torsion_total_example =
    isogeny_inner_no_extra_torsion_total field3 (λ x. x) f1 kernel_pair3 7 pushed3 none
