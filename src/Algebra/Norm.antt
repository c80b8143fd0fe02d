-- ===== src/Algebra/Norm.antt =====
-- The norm of a product.
use sqisign_selkie.Prelude.{
  ℕ, suc, ◌*◌, ◌≤◌, ◌<◌, ◌≡◌, refl, sym, ap₂, ◌∙◌, arith, List, [], ◌∷◌, true,
}
use sqisign_selkie.Int.{◌*ℤ◌}
use sqisign_selkie.Limbs.{cap}
use sqisign_selkie.Ring.Polynomial.{Expr, ◌⊗◌, same, left_side, right_side}
use sqisign_selkie.BigInt.{BigInt, to_ℤ}
use sqisign_selkie.BigInt.Expression.{Bounded, run, weight, run-Exact}
use sqisign_selkie.Algebra.{Element, p_at_width, norm_direct, mul_direct}
use sqisign_selkie.Algebra.Prime.{prime}
use sqisign_selkie.Algebra.Terms.{variables, norm_terms, product_terms, parts, bounds, IsSmall}
use sqisign_selkie.Algebra.Product.{same_integer, two_known}

square_below : (c : ℕ) → 1 ≤ c → c * c ≤ c * (c * (c * c))
square_below c h = omega (arith, at_least c (c * c) h, at_least c (c * (c * c)) h)
  where
    at_least : (a e : ℕ) → 1 ≤ a → e ≤ a * e
    at_least a e g = grind arith

-- A polynomial computed by the operations, as the product of two others.
same_product :
    (n : ℕ) (e f g : Expr) (env : List BigInt) (bs : List ℕ) (most : ℕ)
    → Bounded n env bs
    → most < cap n
    → weight e bs ≤ most
    → weight f bs ≤ most
    → weight g bs ≤ most
    → same (left_side e (f ⊗ g)) (right_side e (f ⊗ g)) ≡ true
    → to_ℤ (run n e env) ≡ to_ℤ (run n f env) *ℤ to_ℤ (run n g env)
same_product n e f g env bs most h fits small_e small_f small_g s =
    same_integer n e (f ⊗ g) env bs most h fits small_e s
    ∙ sym (
        ap₂ ◌*ℤ◌ (run-Exact n f env bs h (omega (arith, small_f, fits))).exact
          (run-Exact n g env bs h (omega (arith, small_g, fits))).exact)

-- The norm of a product is the product of the norms, in the numerators and in the denominators, where
-- the magnitudes are at most `c` and 16·(p + 1)²·c⁴ is below a width of at least four limbs.
pub norm_direct-mul_direct :
    (n c : ℕ) (x y : Element)
    → 4 ≤ n
    → IsSmall n c x
    → IsSmall n c y
    → 16 * (suc prime * suc prime * (c * (c * (c * c)))) < cap n
    → (to_ℤ (norm_direct n (mul_direct n x y)).0
        ≡ to_ℤ (norm_direct n x).0 *ℤ to_ℤ (norm_direct n y).0)
      × (to_ℤ (norm_direct n (mul_direct n x y)).1
          ≡ to_ℤ (norm_direct n x).1 *ℤ to_ℤ (norm_direct n y).1)
unfolding norm_direct mul_direct
norm_direct-mul_direct n c x y wide small_x small_y fits =
    let env = p_at_width n ∷ parts x (parts y []) in
    let bs = prime ∷ bounds c (bounds c []) in
    let known = two_known n c x y wide small_x small_y in
    let most = 16 * (suc prime * suc prime * (c * (c * (c * c)))) in
    let (valid, below, positive, rest) = small_x in
    let less = square_below c positive in
    let v = variables 1 in
    let w = variables 6 in
    let product = product_terms v w in
    (
      same_product n (norm_terms product) (norm_terms v) (norm_terms w) env bs most known fits
          (omega arith) (omega (arith, less)) (omega (arith, less)) refl,
      same_product n (product.denom ⊗ product.denom) (v.denom ⊗ v.denom) (w.denom ⊗ w.denom) env bs
          most known fits (omega arith) (omega (arith, less)) (omega (arith, less)) refl,
    )
