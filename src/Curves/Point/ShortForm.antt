-- ===== src/Curves/Point/ShortForm.antt =====
-- The short form X³ + 3·P·X + Q of the equation of a curve, and how it scales between two curves of one
-- j-invariant.
use sqisign_selkie.Prelude.{◌≡◌, refl, sym, ◌∙◌, [], ◌∷◌}
use sqisign_selkie.Ring.Polynomial.{Expr, var, unit, ◌⊕◌, ◌⊖◌, ◌⊗◌, squared}
use sqisign_selkie.Ring.Sound.{solve, value}
use sqisign_selkie.Ring.Relations.{sub-difference}
use sqisign_selkie.Fields.{Field}
use sqisign_selkie.Curves.Montgomery.{ProjectiveCoefficient, two_nine}
use sqisign_selkie.Curves.Isogeny.Laws.{cubic}
use sqisign_selkie.Curves.Point.{ProjectiveXOnlyPoint}

abbrev pub n3 : Expr
n3 = (unit ⊕ unit) ⊕ unit

abbrev pub n27 : Expr
n27 = n3 ⊗ n3 ⊗ n3

abbrev pub cubed : Expr → Expr
cubed x = squared x ⊗ x

abbrev short_expr : Expr → Expr → Expr → Expr → Expr
short_expr p q x z = z ⊗ (cubed x ⊕ n3 ⊗ p ⊗ (x ⊗ squared z) ⊕ q ⊗ cubed z)

abbrev pub linear_expr : Expr → Expr → Expr
linear_expr a c = n3 ⊗ squared c ⊖ squared a

abbrev constant_expr : Expr → Expr → Expr
constant_expr a c =
    let t = a ⊗ squared c in
    let t4 = (t ⊕ t) ⊕ (t ⊕ t) in let u = squared a ⊗ a in (u ⊕ u) ⊖ ((t4 ⊕ t4) ⊕ t)

module _ (k : Field) where
  open k use {ct_eq}
  open k.ring use {Carrier, zero, one, add, sub, neg, mul, square}

  abbrev pub three : Carrier
  three = add (add one one) one

  abbrev pub cube : Carrier → Carrier
  cube x = mul (square x) x

  -- 3·C² − A², which is a third of the linear coefficient of the short equation.
  abbrev pub linear : ProjectiveCoefficient k → Carrier
  linear e = sub (mul three (square e.c)) (square e.a)

  -- C⁴·(A² − 4·C²), the denominator of the j-invariant, which is 256·(A² − 3·C²)³ over it.
  abbrev pub singular_part : ProjectiveCoefficient k → Carrier
  singular_part e =
      mul (square (square e.c))
        (sub (square e.a) (mul (add (add (add one one) one) one) (square e.c)))

  -- The two curves have one j-invariant.
  abbrev pub SameJInvariant : ProjectiveCoefficient k → ProjectiveCoefficient k → Type 0
  SameJInvariant e t =
      mul (cube (linear e)) (singular_part t) ≡ mul (cube (linear t)) (singular_part e)

  abbrev pub constant : ProjectiveCoefficient k → Carrier
  constant e = two_nine k e.a (square e.a) (square e.c)

  abbrev pub twenty_seven : Carrier
  twenty_seven = mul (mul three three) three

  -- The short cubic at X and Z.
  abbrev pub short : Carrier → Carrier → Carrier → Carrier → Carrier
  short p q x z = mul z (add (add (cube x) (mul (mul three p) (mul x (square z)))) (mul q (cube z)))

  pub shifted :
      (e : ProjectiveCoefficient k) (p : ProjectiveXOnlyPoint k)
      → mul (mul twenty_seven (square e.c)) (cubic k e p)
        ≡ short (linear e) (constant e) (add (mul (mul three e.c) p.x) (mul e.a p.z)) p.z
  shifted e p =
      let a = var 0 in
      let c = var 1 in
      let x = var 2 in
      let z = var 3 in
      solve k.ring (n27 ⊗ squared c ⊗ (x ⊗ z ⊗ ((c ⊗ squared x ⊕ a ⊗ (x ⊗ z)) ⊕ c ⊗ squared z)))
        (short_expr (linear_expr a c) (constant_expr a c) (n3 ⊗ c ⊗ x ⊕ a ⊗ z) z)
        (e.a ∷ e.c ∷ p.x ∷ p.z ∷ []) refl

  -- The relation of the coefficients of the two short equations.
  pub short_relation :
      (e t : ProjectiveCoefficient k)
      → SameJInvariant e t
      → mul (cube (linear t)) (square (constant e)) ≡ mul (cube (linear e)) (square (constant t))
  short_relation e t same =
      let a = var 0 in
      let c = var 1 in
      let b = var 2 in
      let d = var 3 in
      let n4 = n3 ⊕ unit in
      let singular : Expr → Expr → Expr =
        λ a c. squared (squared c) ⊗ (squared a ⊖ n4 ⊗ squared c) in
      let env = e.a ∷ e.c ∷ t.a ∷ t.c ∷ [] in
      sym (sub-difference k.ring _ _ _ (value k.ring n27 env) same)
      ∙ solve k.ring
          (cubed (linear_expr b d) ⊗ squared (constant_expr a c)
            ⊖ (cubed (linear_expr a c) ⊗ singular b d ⊖ cubed (linear_expr b d) ⊗ singular a c)
              ⊗ n27)
          (cubed (linear_expr a c) ⊗ squared (constant_expr b d)) env refl

  -- The short cubic of the target at the image is that of the domain times a factor, in terms of the
  -- coefficients.
  pub scaled :
      (c d p q r s x z : Carrier)
      → mul (cube r) (square q) ≡ mul (cube p) (square s)
      → let lx = mul s (mul c p) in
        let lz = mul q (mul d r) in
        let n = mul (mul three (mul c d)) lz in
        short r s (mul (mul (mul three (square d)) lx) x) (mul n z)
        ≡ mul (mul n (mul twenty_seven (mul (cube (square d)) (cube lx)))) (short p q x z)
  scaled c d p q r s x z relation =
      let vc = var 0 in
      let vd = var 1 in
      let vp = var 2 in
      let vq = var 3 in
      let vr = var 4 in
      let vs = var 5 in
      let vx = var 6 in
      let vz = var 7 in
      let lx = vs ⊗ (vc ⊗ vp) in
      let lz = vq ⊗ (vd ⊗ vr) in
      let n = n3 ⊗ (vc ⊗ vd) ⊗ lz in
      let d6 = cubed (squared vd) in
      let env = c ∷ d ∷ p ∷ q ∷ r ∷ s ∷ x ∷ z ∷ [] in
      let rest =
        n
        ⊗ vz
        ⊗ n27
        ⊗ (n3 ⊗ (cubed (squared vd) ⊗ squared vc ⊗ lx ⊗ vx ⊗ squared vz)
            ⊕ d6 ⊗ cubed vc ⊗ (vq ⊗ vs) ⊗ cubed vz) in
      sym (sub-difference k.ring _ _ _ (value k.ring rest env) relation)
      ∙ solve k.ring
          (short_expr vr vs (n3 ⊗ squared vd ⊗ lx ⊗ vx) (n ⊗ vz)
            ⊖ (cubed vr ⊗ squared vq ⊖ cubed vp ⊗ squared vs) ⊗ rest)
          (n ⊗ (n27 ⊗ (d6 ⊗ cubed lx)) ⊗ short_expr vp vq vx vz) env refl
