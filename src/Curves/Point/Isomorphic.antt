-- ===== src/Curves/Point/Isomorphic.antt =====
-- The image of a point under an isomorphism lies on the target: the cubic of the target at the image is
-- that of the domain at the point times a factor.
use sqisign_selkie.Prelude.{
  ◌≡◌, ◌≢◌, refl, sym, ap, ap₂, ◌∙◌, subst, [], ◌∷◌, Bool, true, false, ◌||◌, Option, none, some,
  if◌then◌else◌,
}
use sqisign_selkie.Ring.Polynomial.{var, ◌⊕◌, ◌⊖◌, ◌⊗◌, squared}
use sqisign_selkie.Ring.Sound.{solve}
use sqisign_selkie.Fields.{Field}
use sqisign_selkie.Fields.Laws.{cancel, mul-ne_zero}
use sqisign_selkie.Curves.Montgomery.{Curve, Isomorphism, isomorphism, isomorphism_constants}
use sqisign_selkie.Curves.Isogeny.Laws.{cubic}
use sqisign_selkie.Curves.Point.{ProjectiveXOnlyPoint, from_xz, eval_isomorphism}
use sqisign_selkie.Curves.Point.ShortForm.{
  three, cube, linear, SameJInvariant, constant, n3, n27, twenty_seven, short, cubed, linear_expr,
  shifted, short_relation, scaled,
}

module _ (k : Field) where
  open k use {ct_eq}
  open k.ring use {Carrier, zero, one, add, sub, neg, mul, square}

  -- The scales of the constants by the coefficients of the short k equations.
  scales :
      (e t : Curve k)
      → let phi = isomorphism_constants k e t in
        (phi.lambda_x ≡ mul (constant k t.projective) (mul e.projective.c (linear k e.projective)))
        × (phi.lambda_z
            ≡ mul (constant k e.projective) (mul t.projective.c (linear k t.projective)))
  unfolding isomorphism_constants
  scales e t =
      let scale_of : (q a c : Carrier) → _ = λ q a c.
        solve k.ring
          (var 0
            ⊗ ((squared (var 2) ⊗ var 2 ⊕ squared (var 2) ⊗ var 2)
                ⊕ squared (var 2) ⊗ var 2
                ⊖ squared (var 1) ⊗ var 2))
          (var 0 ⊗ (var 2 ⊗ linear_expr (var 1) (var 2))) (q ∷ a ∷ c ∷ []) refl in
      (
        scale_of (constant k t.projective) e.projective.a e.projective.c,
        scale_of (constant k e.projective) t.projective.a t.projective.c,
      )

  -- The shifted k coordinate of the image, and its second coordinate.
  image_lem :
      (e t : Curve k) (p : ProjectiveXOnlyPoint k)
      → let phi = isomorphism_constants k e t in
        let c = e.projective.c in
        let d = t.projective.c in
        let r = eval_isomorphism k phi p in
        (add (mul (mul (three k) d) r.x) (mul t.projective.a r.z)
          ≡ mul
              (mul (mul (three k) (square d)) phi.lambda_x)
              (add (mul (mul (three k) c) p.x) (mul e.projective.a p.z)))
        × (r.z ≡ mul (mul (mul (three k) (mul c d)) phi.lambda_z) p.z)
  unfolding eval_isomorphism from_xz isomorphism_constants
  image_lem e t p =
      let phi = isomorphism_constants k e t in
      let x = var 0 in
      let z = var 1 in
      let lx = var 2 in
      let lz = var 3 in
      let a = var 4 in
      let c = var 5 in
      let b = var 6 in
      let d = var 7 in
      let env =
        p.x ∷ p.z ∷ phi.lambda_x ∷ phi.lambda_z ∷ e.projective.a ∷ e.projective.c ∷ t.projective.a
        ∷ t.projective.c ∷ [] in
      let cd = c ⊗ d in
      let n = (cd ⊕ cd) ⊕ cd in
      let image_x = lx ⊗ (n ⊗ x ⊕ (a ⊗ d) ⊗ z) ⊖ lz ⊗ ((b ⊗ c) ⊗ z) in
      let image_z = lz ⊗ (n ⊗ z) in
      (
        solve k.ring (n3 ⊗ d ⊗ image_x ⊕ b ⊗ image_z) (n3 ⊗ squared d ⊗ lx ⊗ (n3 ⊗ c ⊗ x ⊕ a ⊗ z))
            env refl,
        solve k.ring image_z (n3 ⊗ cd ⊗ lz ⊗ z) env refl,
      )

  answer : Bool → Isomorphism k → Option (Isomorphism k)
  answer degenerate phi = if degenerate then none else some phi

  answer-some :
      (d g : Bool) (phi psi : Isomorphism k)
      → answer (d || g) phi ≡ some psi
      → (d ≡ false) × (g ≡ false) × (phi ≡ psi)
  unfolding answer
  answer-some true g phi psi h = cc
  answer-some false true phi psi h = cc
  answer-some false false phi psi h = (refl, refl, ap (value_or phi) h)
    where
      value_or : Isomorphism k → Option (Isomorphism k) → Isomorphism k
      value_or d none = d
      value_or d (some chi) = chi

  differs : (x : Carrier) → ct_eq x zero ≡ false → x ≢ zero
  differs x h e = let g = (k.ct_eq_iff x zero).1 e in cc

  -- What the constructor answers has scales that are not zero.
  found :
      (e t : Curve k) (phi : Isomorphism k)
      → isomorphism k e t ≡ some phi
      → let there = isomorphism_constants k e t in
        (there.lambda_x ≢ zero) × (there.lambda_z ≢ zero) × (there ≡ phi)
  unfolding isomorphism answer
  found e t phi h =
      let there = isomorphism_constants k e t in
      let (x, z, same) =
        answer-some (ct_eq there.lambda_x zero) (ct_eq there.lambda_z zero) there phi h in
      (differs there.lambda_x x, differs there.lambda_z z, same)

  abbrev pub denominator_factor : Curve k → Curve k → Isomorphism k → Carrier
  denominator_factor e t phi = mul (mul (three k) (mul e.projective.c t.projective.c)) phi.lambda_z

  abbrev pub cubic_factor : Curve k → Curve k → Isomorphism k → Carrier
  cubic_factor e t phi =
      mul (mul (denominator_factor e t phi) (mul (twenty_seven k) (square e.projective.c)))
        (mul (square (square t.projective.c)) (cube k phi.lambda_x))

  constants-cubic :
      (e t : Curve k) (p : ProjectiveXOnlyPoint k)
      → SameJInvariant k e.projective t.projective
      → let phi = isomorphism_constants k e t in
        mul
          (mul (twenty_seven k) (square t.projective.c))
          (cubic k t.projective (eval_isomorphism k phi p))
        ≡ mul
            (mul (twenty_seven k) (square t.projective.c))
            (mul (cubic_factor e t phi) (cubic k e.projective p))
  constants-cubic e t p same =
      let phi = isomorphism_constants k e t in
      let c = e.projective.c in
      let d = t.projective.c in
      let (x, z) = image_lem e t p in
      let (sx, sz) = scales e t in
      let from = add (mul (mul (three k) c) p.x) (mul e.projective.a p.z) in
      let n : Carrier → Carrier = λ lz. mul (mul (three k) (mul c d)) lz in
      let source = short k (linear k e.projective) (constant k e.projective) from p.z in
      shifted k t.projective (eval_isomorphism k phi p)
      ∙ ap₂ (short k (linear k t.projective) (constant k t.projective)) x z
      ∙ ap₂
          (λ lx lz.
            short k (linear k t.projective) (constant k t.projective)
              (mul (mul (mul (three k) (square d)) lx) from) (mul (n lz) p.z))
          sx sz
      ∙ scaled k c d (linear k e.projective) (constant k e.projective) (linear k t.projective)
          (constant k t.projective) from p.z (short_relation k e.projective t.projective same)
      ∙ sym (
          ap₂
            (λ lx lz.
              mul (mul (n lz) (mul (twenty_seven k) (mul (cube k (square d)) (cube k lx)))) source)
            sx sz)
      ∙ sym (
          ap
            (mul (
              mul (n phi.lambda_z)
                (mul (twenty_seven k) (mul (cube k (square d)) (cube k phi.lambda_x)))))
            (shifted k e.projective p))
      ∙ solve k.ring
          (n3
            ⊗ (var 0 ⊗ var 1)
            ⊗ var 3
            ⊗ (n27 ⊗ (cubed (squared (var 1)) ⊗ cubed (var 2)))
            ⊗ (n27 ⊗ squared (var 0) ⊗ var 4))
          (n27
            ⊗ squared (var 1)
            ⊗ (n3
                ⊗ (var 0 ⊗ var 1)
                ⊗ var 3
                ⊗ (n27 ⊗ squared (var 0))
                ⊗ (squared (squared (var 1)) ⊗ cubed (var 2))
                ⊗ var 4))
          (c ∷ d ∷ phi.lambda_x ∷ phi.lambda_z ∷ cubic k e.projective p ∷ []) refl

  square-ne_zero : (x : Carrier) → x ≢ zero → square x ≢ zero
  square-ne_zero x h e = mul-ne_zero k x x h h (sym (k.ring.square_lem x) ∙ e)

  cube-ne_zero : (x : Carrier) → x ≢ zero → cube k x ≢ zero
  cube-ne_zero x h = mul-ne_zero k (square x) x (square-ne_zero x h) h

  constants_claim :
      (e t : Curve k) (p : ProjectiveXOnlyPoint k)
      → SameJInvariant k e.projective t.projective
      → (three k) ≢ zero
      → e.projective.c ≢ zero
      → t.projective.c ≢ zero
      → let phi = isomorphism_constants k e t in
        phi.lambda_x ≢ zero
        → phi.lambda_z ≢ zero
        → let r = eval_isomorphism k phi p in
          (cubic k t.projective r ≡ mul (cubic_factor e t phi) (cubic k e.projective p))
          × (r.z ≡ mul (denominator_factor e t phi) p.z)
          × (cubic_factor e t phi ≢ zero)
          × (denominator_factor e t phi ≢ zero)
  constants_claim e t p same odd c_ne d_ne x_ne z_ne =
      let phi = isomorphism_constants k e t in
      let c = e.projective.c in
      let d = t.projective.c in
      let n27_ne =
        mul-ne_zero k (mul (three k) (three k)) (three k)
          (mul-ne_zero k (three k) (three k) odd odd) odd in
      let n_ne =
        mul-ne_zero k (mul (three k) (mul c d)) phi.lambda_z
          (mul-ne_zero k (three k) (mul c d) odd (mul-ne_zero k c d c_ne d_ne)) z_ne in
      (
        cancel k (mul (twenty_seven k) (square d)) _ _
            (mul-ne_zero k (twenty_seven k) (square d) n27_ne (square-ne_zero d d_ne))
            (constants-cubic e t p same),
        (image_lem e t p).1,
        mul-ne_zero k _ _
            (mul-ne_zero k _ _ n_ne (mul-ne_zero k _ _ n27_ne (square-ne_zero c c_ne)))
            (mul-ne_zero k _ _ (square-ne_zero (square d) (square-ne_zero d d_ne))
              (cube-ne_zero phi.lambda_x x_ne)),
        n_ne,
      )

  -- Where `isomorphism` is found between two curves of one j-invariant, in a characteristic other than
  -- 3 and with denominators of the coefficients that are not zero, the cubic of the target at the image
  -- of a point is that of the domain at the point times 81·C³·C'⁵·λ_z·λ_x³, and the second coordinate is
  -- that of the point times 3·C·C'·λ_z. Both factors are not zero.
  pub eval_isomorphism-cubic :
      (e t : Curve k) (phi : Isomorphism k) (p : ProjectiveXOnlyPoint k)
      → isomorphism k e t ≡ some phi
      → SameJInvariant k e.projective t.projective
      → (three k) ≢ zero
      → e.projective.c ≢ zero
      → t.projective.c ≢ zero
      → let r = eval_isomorphism k phi p in
        (cubic k t.projective r ≡ mul (cubic_factor e t phi) (cubic k e.projective p))
        × (r.z ≡ mul (denominator_factor e t phi) p.z)
        × (cubic_factor e t phi ≢ zero)
        × (denominator_factor e t phi ≢ zero)
  eval_isomorphism-cubic e t phi p h same odd c_ne d_ne =
      let (x_ne, z_ne, there) = found e t phi h in
      subst
        (λ psi.
          let r = eval_isomorphism k psi p in
          (cubic k t.projective r ≡ mul (cubic_factor e t psi) (cubic k e.projective p))
          × (r.z ≡ mul (denominator_factor e t psi) p.z)
          × (cubic_factor e t psi ≢ zero)
          × (denominator_factor e t psi ≢ zero))
        there (constants_claim e t p same odd c_ne d_ne x_ne z_ne)
