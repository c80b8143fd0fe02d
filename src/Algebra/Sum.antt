-- ===== src/Algebra/Sum.antt =====
-- The sum and the equality of elements as those of fractions.
use sqisign_selkie.Prelude.{
  ℕ, ◌+◌, ◌*◌, ◌≤◌, ◌<◌, ◌≡◌, ◌↔◌, refl, sym, ap, ap₂, subst, ◌∙◌, arith, [], ◌∷◌, map, Bool, true,
  false, ◌&&◌, ◌==◌, ==_iff, Bool-cases, inl, inr,
}
use sqisign_selkie.Int.{ℤ, ◌+ℤ◌, ◌*ℤ◌}
use sqisign_selkie.Limbs.{cap}
use sqisign_selkie.Ring.Integers.{integers}
use sqisign_selkie.Ring.Polynomial.{Expr, var, ◌⊕◌, ◌⊗◌}
use sqisign_selkie.Ring.Sound.{solve, value}
use sqisign_selkie.BigInt.{to_ℤ}
use sqisign_selkie.BigInt.Mul.{vt_mul}
use sqisign_selkie.BigInt.Compare.{ct_eq}
use sqisign_selkie.BigInt.Compare.Value.{ct_eq_value}
use sqisign_selkie.BigInt.Expression.{Bounded, run, weight, Exact, run-Exact}
use sqisign_selkie.Algebra.{Element, add, element_eq}
use sqisign_selkie.Algebra.Gaussian.{quaternion_add, quaternion_scale, SameFraction, numerators}
use sqisign_selkie.Algebra.Terms.{parts, bounds, IsSmall, small_parts}

least_square : (c : ℕ) → 1 ≤ c → c ≤ c * c
least_square c h = grind arith

-- Fractions with one denominator.
common : (u v r s : ℤ) → r ≡ s → (u +ℤ v) *ℤ (r *ℤ s) ≡ (s *ℤ u +ℤ r *ℤ v) *ℤ r
common u v r s e =
    subst (λ t. (u +ℤ v) *ℤ (r *ℤ t) ≡ (t *ℤ u +ℤ r *ℤ v) *ℤ r) e
      (solve integers ((var 0 ⊕ var 1) ⊗ (var 2 ⊗ var 2)) ((var 2 ⊗ var 0 ⊕ var 2 ⊗ var 1) ⊗ var 2)
        (u ∷ v ∷ r ∷ []) refl)

four_tests :
    (a b c d : Bool) (P Q R S : Type 0)
    → (a ≡ true) ↔ P
    → (b ≡ true) ↔ Q
    → (c ≡ true) ↔ R
    → (d ≡ true) ↔ S
    → ((a && b && c && d) ≡ true) ↔ (P × Q × R × S)
four_tests true true true true P Q R S p q r s =
    (λ e. (p.0 refl, q.0 refl, r.0 refl, s.0 refl), λ h. refl)
four_tests true true true false P Q R S p q r s = (λ e. cc, λ (f, g, h, k). s.1 k)
four_tests true true false d P Q R S p q r s = (λ e. cc, λ (f, g, h, k). r.1 h)
four_tests true false c d P Q R S p q r s = (λ e. cc, λ (f, g, h, k). q.1 g)
four_tests false b c d P Q R S p q r s = (λ e. cc, λ (f, g, h, k). p.1 f)

module _ (n c : ℕ) (x y : Element) (small_x : IsSmall n c x) (small_y : IsSmall n c y)
    (fits : 2 * (c * c) < cap n) where
  known : Bounded n (parts x (parts y [])) (bounds c (bounds c []))
  known = small_parts n c x (parts y []) (bounds c []) small_x small_y

  least : 1 ≤ c
  least = let (valid, below, positive, rest) = small_x in positive

  computed :
      (e : Expr)
      → weight e (bounds c (bounds c [])) ≤ 2 * (c * c)
      → Exact n
          (run n e (parts x (parts y [])))
          (value integers e (map to_ℤ (parts x (parts y []))))
          (weight e (bounds c (bounds c [])))
  computed e less =
      run-Exact n e (parts x (parts y [])) (bounds c (bounds c [])) known
        (omega (arith, less, fits))

  -- The coordinate `i` of the sum where the denominators are equal.
  shared :
      (i : ℕ)
      → weight (var i ⊕ var (5 + i)) (bounds c (bounds c [])) ≡ c + c
      → to_ℤ x.denom ≡ to_ℤ y.denom
      → to_ℤ (run n (var i ⊕ var (5 + i)) (parts x (parts y []))) *ℤ (to_ℤ x.denom *ℤ to_ℤ y.denom)
        ≡ (to_ℤ y.denom *ℤ value integers (var i) (map to_ℤ (parts x (parts y [])))
            +ℤ to_ℤ x.denom *ℤ value integers (var (5 + i)) (map to_ℤ (parts x (parts y []))))
          *ℤ to_ℤ x.denom
  shared i w e =
      ap (λ t. t *ℤ (to_ℤ x.denom *ℤ to_ℤ y.denom))
        (computed (var i ⊕ var (5 + i)) (omega (arith, w, least_square c least))).exact
      ∙ common _ _ (to_ℤ x.denom) (to_ℤ y.denom) e

  -- The coordinate `i` of the sum where they are not.
  crossed :
      (i : ℕ)
      → weight (var i ⊗ var 9 ⊕ var (5 + i) ⊗ var 4) (bounds c (bounds c [])) ≡ c * c + c * c
      → to_ℤ (run n (var i ⊗ var 9 ⊕ var (5 + i) ⊗ var 4) (parts x (parts y [])))
          *ℤ (to_ℤ x.denom *ℤ to_ℤ y.denom)
        ≡ (to_ℤ y.denom *ℤ value integers (var i) (map to_ℤ (parts x (parts y [])))
            +ℤ to_ℤ x.denom *ℤ value integers (var (5 + i)) (map to_ℤ (parts x (parts y []))))
          *ℤ to_ℤ (vt_mul x.denom y.denom)
  crossed i w =
      ap₂ ◌*ℤ◌
        ((computed (var i ⊗ var 9 ⊕ var (5 + i) ⊗ var 4) (omega (arith, w))).exact
          ∙ solve integers (var 0 ⊗ var 1 ⊕ var 2 ⊗ var 3) (var 1 ⊗ var 0 ⊕ var 3 ⊗ var 2)
              (value integers (var i) (map to_ℤ (parts x (parts y [])))
                ∷ to_ℤ y.denom
                ∷ value integers (var (5 + i)) (map to_ℤ (parts x (parts y [])))
                ∷ to_ℤ x.denom
                ∷ [])
              refl)
        (sym (computed (var 4 ⊗ var 9) (omega arith)).exact)

  -- The fraction that `add` computes is s·x + r·y over r·s, for elements x / r and y / s with
  -- magnitudes of at most `c`, where 2·c² is below the width.
  pub add_value :
      SameFraction
        (numerators (add x y))
        (to_ℤ (add x y).denom)
        (quaternion_add
          (quaternion_scale (to_ℤ y.denom) (numerators x))
          (quaternion_scale (to_ℤ x.denom) (numerators y)))
        (to_ℤ x.denom *ℤ to_ℤ y.denom)
  unfolding add
  add_value = elim (Bool-cases (ct_eq x.denom y.denom == 1)) [
    | inl e ↦
        let valid_r = (computed (var 4) (omega (arith, least_square c least))).valid in
        let valid_s = (computed (var 9) (omega (arith, least_square c least))).valid in
        let same =
          (ct_eq_value n x.denom y.denom valid_r valid_s).0
            ((==_iff (ct_eq x.denom y.denom) 1).0 e) in
        rw e (shared 0 refl same, shared 1 refl same, shared 2 refl same, shared 3 refl same)
    | inr e ↦ rw e (crossed 0 refl, crossed 1 refl, crossed 2 refl, crossed 3 refl)
  ]

  cross_test :
      (i j : ℕ)
      → weight (var i ⊗ var 9) (bounds c (bounds c [])) ≡ c * c
      → weight (var j ⊗ var 4) (bounds c (bounds c [])) ≡ c * c
      → ((ct_eq
              (run n (var i ⊗ var 9) (parts x (parts y [])))
              (run n (var j ⊗ var 4) (parts x (parts y [])))
            == 1)
          ≡ true)
        ↔ (value integers (var i) (map to_ℤ (parts x (parts y []))) *ℤ to_ℤ y.denom
            ≡ value integers (var j) (map to_ℤ (parts x (parts y []))) *ℤ to_ℤ x.denom)
  cross_test i j v w =
      let g = computed (var i ⊗ var 9) (omega (arith, v)) in
      let h = computed (var j ⊗ var 4) (omega (arith, w)) in
      let s = run n (var i ⊗ var 9) (parts x (parts y [])) in
      let t = run n (var j ⊗ var 4) (parts x (parts y [])) in
      let test = ct_eq_value n s t g.valid h.valid in
      (
        λ e. sym g.exact ∙ test.0 ((==_iff (ct_eq s t) 1).0 e) ∙ h.exact,
        λ e. (==_iff (ct_eq s t) 1).1 (test.1 (g.exact ∙ e ∙ sym h.exact)),
      )

  -- Elements with magnitudes of at most `c` are `==` exactly where they are one fraction, with 2·c²
  -- below the width.
  pub element_eq_value :
      (element_eq x y ≡ true)
      ↔ SameFraction (numerators x) (to_ℤ x.denom) (numerators y) (to_ℤ y.denom)
  unfolding element_eq
  element_eq_value =
      four_tests _ _ _ _ _ _ _ _ (cross_test 0 5 refl refl) (cross_test 1 6 refl refl)
        (cross_test 2 7 refl refl) (cross_test 3 8 refl refl)
