-- ===== src/Algebra/Product.antt =====
-- The product of the algebra: the product of the quaternions, associative, and the norm where one
-- factor is the conjugate of the other.
use sqisign_selkie.Prelude.{
  ℕ, suc, ◌*◌, ◌≤◌, ◌<◌, ◌≡◌, refl, sym, ap, ap₂, ◌∙◌, arith, List, [], ◌∷◌, map, true,
}
use sqisign_selkie.Int.{ℤ, pos, ◌*ℤ◌}
use sqisign_selkie.Limbs.{cap}
use sqisign_selkie.Ring.Integers.{integers}
use sqisign_selkie.Ring.Polynomial.{Expr, nil, same, left_side, right_side}
use sqisign_selkie.Ring.Sound.{solve, value}
use sqisign_selkie.BigInt.{BigInt, to_ℤ}
use sqisign_selkie.BigInt.Expression.{Bounded, run, weight, run-Exact}
use sqisign_selkie.Algebra.{Element, p_at_width, conjugate, norm_direct, mul_direct}
use sqisign_selkie.Algebra.Gaussian.{Quaternion, quaternion_mul, numerators}
use sqisign_selkie.Algebra.Prime.{prime, p_at_width_value}
use sqisign_selkie.Algebra.Terms.{
  variables, conjugate_terms, norm_terms, product_terms, pair_terms, parts, bounds, IsSmall,
  small_parts, with_prime,
}

-- Two polynomials computed by the operations, where both bounds are below the width.
pub same_value :
    (n : ℕ) (e f : Expr) (env : List BigInt) (bs : List ℕ) (most : ℕ)
    → Bounded n env bs
    → most < cap n
    → weight e bs ≤ most
    → weight f bs ≤ most
    → same (left_side e f) (right_side e f) ≡ true
    → to_ℤ (run n e env) ≡ to_ℤ (run n f env)
same_value n e f env bs most h fits small_e small_f s =
    (run-Exact n e env bs h (omega (arith, small_e, fits))).exact
    ∙ solve integers e f (map to_ℤ env) s
    ∙ sym (run-Exact n f env bs h (omega (arith, small_f, fits))).exact

-- A polynomial computed by the operations, as one over the integers.
pub same_integer :
    (n : ℕ) (e f : Expr) (env : List BigInt) (bs : List ℕ) (most : ℕ)
    → Bounded n env bs
    → most < cap n
    → weight e bs ≤ most
    → same (left_side e f) (right_side e f) ≡ true
    → to_ℤ (run n e env) ≡ value integers f (map to_ℤ env)
same_integer n e f env bs most h fits small s =
    (run-Exact n e env bs h (omega (arith, small, fits))).exact
    ∙ solve integers e f (map to_ℤ env) s

quaternion_path :
    (x : Quaternion) (a b c d : ℤ)
    → a ≡ x.z.re
    → b ≡ x.z.im
    → c ≡ x.w.re
    → d ≡ x.w.im
    → record { z = record { re = a; im = b }; w = record { re = c; im = d } } ≡ x
quaternion_path x a b c d e f g h =
    ap₂ (λ u v. record { z = u; w = v }) (ap₂ (λ u v. record { re = u; im = v }) e f)
      (ap₂ (λ u v. record { re = u; im = v }) g h)

-- The prime and the parts of two elements as the variables.
pub two_known :
    (n c : ℕ) (x y : Element)
    → 4 ≤ n
    → IsSmall n c x
    → IsSmall n c y
    → Bounded n (p_at_width n ∷ parts x (parts y [])) (prime ∷ bounds c (bounds c []))
two_known n c x y wide small_x small_y =
    with_prime n prime (p_at_width n) (pos prime) (parts x (parts y [])) (bounds c (bounds c []))
      (p_at_width_value n wide) (omega arith)
      (small_parts n c x (parts y []) (bounds c []) small_x small_y)

-- The numerators of `mul_direct` are the product of the quaternions and the denominators are
-- multiplied, where the magnitudes are at most `c` and 2·(p + 1)·c² is below a width of at least four
-- limbs.
pub mul_direct_value :
    (n c : ℕ) (x y : Element)
    → 4 ≤ n
    → IsSmall n c x
    → IsSmall n c y
    → 2 * (suc prime * (c * c)) < cap n
    → (numerators (mul_direct n x y) ≡ quaternion_mul (pos prime) (numerators x) (numerators y))
      × (to_ℤ (mul_direct n x y).denom ≡ to_ℤ x.denom *ℤ to_ℤ y.denom)
unfolding mul_direct
mul_direct_value n c x y wide small_x small_y fits =
    let p = p_at_width n in
    let env = p ∷ parts x (parts y []) in
    let bs = prime ∷ bounds c (bounds c []) in
    let known = two_known n c x y wide small_x small_y in
    let most = 2 * (suc prime * (c * c)) in
    let e = product_terms (variables 1) (variables 6) in
    let f = pair_terms (variables 1) (variables 6) in
    (
      quaternion_path (quaternion_mul (to_ℤ p) (numerators x) (numerators y)) _ _ _ _
            (same_integer n e.a f.a env bs most known fits (omega arith) refl)
            (same_integer n e.b f.b env bs most known fits (omega arith) refl)
            (same_integer n e.c f.c env bs most known fits (omega arith) refl)
            (same_integer n e.d f.d env bs most known fits (omega arith) refl)
          ∙ ap (λ t. quaternion_mul t (numerators x) (numerators y))
              (p_at_width_value n wide).exact,
      same_integer n e.denom f.denom env bs most known fits (omega arith) refl,
    )

-- An element times its conjugate is its norm: the numerator of `norm_direct` beside zeros, over the
-- same denominator, where the magnitudes are at most `c` and 2·(p + 1)·c² is below a width of at
-- least four limbs.
pub mul_direct-conjugate :
    (n c : ℕ) (x : Element)
    → 4 ≤ n
    → IsSmall n c x
    → 2 * (suc prime * (c * c)) < cap n
    → (to_ℤ (mul_direct n x (conjugate x)).a ≡ to_ℤ (norm_direct n x).0)
      × (to_ℤ (mul_direct n x (conjugate x)).b ≡ pos 0)
      × (to_ℤ (mul_direct n x (conjugate x)).c ≡ pos 0)
      × (to_ℤ (mul_direct n x (conjugate x)).d ≡ pos 0)
      × ((mul_direct n x (conjugate x)).denom ≡ (norm_direct n x).1)
unfolding mul_direct conjugate norm_direct
mul_direct-conjugate n c x wide small fits =
    let env = p_at_width n ∷ parts x (parts x []) in
    let bs = prime ∷ bounds c (bounds c []) in
    let known = two_known n c x x wide small small in
    let most = 2 * (suc prime * (c * c)) in
    let e = product_terms (variables 1) (conjugate_terms (variables 1)) in
    (
      same_value n e.a (norm_terms (variables 1)) env bs most known fits (omega arith) (omega arith)
          refl,
      same_integer n e.b nil env bs most known fits (omega arith) refl,
      same_integer n e.c nil env bs most known fits (omega arith) refl,
      same_integer n e.d nil env bs most known fits (omega arith) refl,
      refl,
    )

-- Three factors may be multiplied in either order of the two products: the coordinates and the
-- denominators are the same integers, where the magnitudes are at most `c` and 12·(p + 1)·c³ is below
-- a width of at least four limbs.
pub mul_direct_assoc :
    (n c : ℕ) (x y z : Element)
    → 4 ≤ n
    → IsSmall n c x
    → IsSmall n c y
    → IsSmall n c z
    → 12 * (suc prime * (c * (c * c))) < cap n
    → (numerators (mul_direct n (mul_direct n x y) z)
        ≡ numerators (mul_direct n x (mul_direct n y z)))
      × (to_ℤ (mul_direct n (mul_direct n x y) z).denom
          ≡ to_ℤ (mul_direct n x (mul_direct n y z)).denom)
unfolding mul_direct
mul_direct_assoc n c x y z wide small_x small_y small_z fits =
    let env = p_at_width n ∷ parts x (parts y (parts z [])) in
    let bs = prime ∷ bounds c (bounds c (bounds c [])) in
    let known =
      with_prime n prime (p_at_width n) (pos prime) (parts x (parts y (parts z [])))
        (bounds c (bounds c (bounds c []))) (p_at_width_value n wide) (omega arith)
        (small_parts n c x (parts y (parts z [])) (bounds c (bounds c [])) small_x
          (small_parts n c y (parts z []) (bounds c []) small_y small_z)) in
    let most = 12 * (suc prime * (c * (c * c))) in
    let e = product_terms (product_terms (variables 1) (variables 6)) (variables 11) in
    let f = product_terms (variables 1) (product_terms (variables 6) (variables 11)) in
    (
      quaternion_path (numerators (mul_direct n x (mul_direct n y z))) _ _ _ _
          (same_value n e.a f.a env bs most known fits (omega arith) (omega arith) refl)
          (same_value n e.b f.b env bs most known fits (omega arith) (omega arith) refl)
          (same_value n e.c f.c env bs most known fits (omega arith) (omega arith) refl)
          (same_value n e.d f.d env bs most known fits (omega arith) (omega arith) refl),
      same_value n e.denom f.denom env bs most known fits (omega arith) (omega arith) refl,
    )
