-- ===== src/Linear/Matrix/Adjugate.antt =====
-- The adjugate of a matrix: the matrix times its adjugate is the determinant on the diagonal.
use sqisign_selkie.Prelude.{
  ℕ, zero, suc, ◌+◌, ◌*◌, ◌%◌, ◌≤◌, ◌<◌, ◌≡◌, refl, sym, ap, ap₂, ◌∙◌, arith, List, map, replicate,
  true, ◌==◌, if◌then◌else◌,
}
use sqisign_selkie.Int.{ℤ, pos, ◌+ℤ◌, abs_ℤ}
use sqisign_selkie.Int.Product.{+ℤ_comm, zero-+ℤ, abs-+ℤ}
use sqisign_selkie.Limbs.{cap}
use sqisign_selkie.Ring.Integers.{integers}
use sqisign_selkie.Ring.Polynomial.{Expr, nil, ◌⊕◌, ◌⊗◌, opposite, same, left_side, right_side}
use sqisign_selkie.Ring.Sound.{solve, value}
use sqisign_selkie.BigInt.{BigInt, to_ℤ, truncated}
use sqisign_selkie.BigInt.Sign.{truncated_fits}
use sqisign_selkie.BigInt.Expression.{Bounded, run, weight, run-Exact}
use sqisign_selkie.BigInt.Mac.Value.{mac_sum_value}
use sqisign_selkie.Linear.Vector.{Vector, dot, dot_terms}
use sqisign_selkie.Linear.Matrix.{Matrix, entry, others, det, adjugate, mat_mul, transpose}
use sqisign_selkie.Linear.Matrix.Values.{entries, IsSmall, at, minor_expr, det_expr, det-Exact}

abbrev dot_expr : (ℕ → Expr) → (ℕ → Expr) → Expr
dot_expr e f = e 0 ⊗ f 0 ⊕ (e 1 ⊗ f 1 ⊕ (e 2 ⊗ f 2 ⊕ e 3 ⊗ f 3))

abbrev vector_of : ℕ → (ℕ → Expr) → List BigInt → Vector
vector_of n e env = record {
  a = run n (e 0) env;
  b = run n (e 1) env;
  c = run n (e 2) env;
  d = run n (e 3) env;
}

sum_of_four :
    (a b c d : ℤ) (w x y z : ℕ)
    → abs_ℤ a ≤ w
    → abs_ℤ b ≤ x
    → abs_ℤ c ≤ y
    → abs_ℤ d ≤ z
    → abs_ℤ (a +ℤ (b +ℤ (c +ℤ d))) ≤ w + (x + (y + z))
sum_of_four a b c d w x y z h g l k =
    let s = abs-+ℤ a (b +ℤ (c +ℤ d)) in
    let t = abs-+ℤ b (c +ℤ d) in let u = abs-+ℤ c d in omega (arith, s, t, u, h, g, l, k)

-- The dot product of computed vectors is exact where the bound of the whole sum is below the width.
dot_run :
    (n : ℕ) (e f : ℕ → Expr) (env : List BigInt) (bs : List ℕ)
    → Bounded n env bs
    → weight (dot_expr e f) bs < cap n
    → to_ℤ (dot n (vector_of n e env) (vector_of n f env))
      ≡ value integers (dot_expr e f) (map to_ℤ env)
unfolding dot
dot_run n e f env bs h fits =
    let s = run-Exact n (e 0 ⊗ f 0) env bs h (omega (arith, fits)) in
    let t = run-Exact n (e 1 ⊗ f 1) env bs h (omega (arith, fits)) in
    let u = run-Exact n (e 2 ⊗ f 2) env bs h (omega (arith, fits)) in
    let v = run-Exact n (e 3 ⊗ f 3) env bs h (omega (arith, fits)) in
    let product : ℕ → ℤ = λ i. value integers (e i ⊗ f i) (map to_ℤ env) in
    let (sum, valid, canonical) =
      mac_sum_value n (dot_terms (vector_of n e env) (vector_of n f env))
        (s.valid, (t.valid, (u.valid, (v.valid, tt)))) (omega arith) in
    let small =
      sum_of_four (product 0) (product 1) (product 2) (product 3) (weight (e 0 ⊗ f 0) bs)
        (weight (e 1 ⊗ f 1) bs) (weight (e 2 ⊗ f 2) bs) (weight (e 3 ⊗ f 3) bs) s.below t.below
        u.below v.below in
    sum
    ∙ ap (truncated n) (
        ap₂ ◌+ℤ◌ s.exact (
          ap₂ ◌+ℤ◌ t.exact (
            ap₂ ◌+ℤ◌ u.exact
              (ap (λ z. z +ℤ pos 0) v.exact ∙ +ℤ_comm (product 3) (pos 0) ∙ zero-+ℤ (product 3)))))
    ∙ truncated_fits n (product 0 +ℤ (product 1 +ℤ (product 2 +ℤ product 3)))
        (omega (arith, small, fits))

-- The cofactor of the entry in row `i` and column `j`.
abbrev pub cofactor_expr : ℕ → ℕ → Expr
cofactor_expr i j =
    let m3 = minor_expr (others i) (others j) in if (i + j) % 2 == 0 then m3 else opposite m3

-- An entry of the product with the adjugate.
product_at :
    (n c : ℕ) (m : Matrix) (i k : ℕ) (e : Expr)
    → IsSmall n c m
    → 24 * (c * (c * (c * c))) < cap n
    → weight (dot_expr (at i) (cofactor_expr k)) (replicate 16 c) ≡ 24 * (c * (c * (c * c)))
    → same
        (left_side (dot_expr (at i) (cofactor_expr k)) e)
        (right_side (dot_expr (at i) (cofactor_expr k)) e)
      ≡ true
    → to_ℤ (dot n (vector_of n (at i) (entries m)) (vector_of n (cofactor_expr k) (entries m)))
      ≡ value integers e (map to_ℤ (entries m))
product_at n c m i k e small fits w s =
    dot_run n (at i) (cofactor_expr k) (entries m) (replicate 16 c) small (omega (arith, w, fits))
    ∙ solve integers (dot_expr (at i) (cofactor_expr k)) e (map to_ℤ (entries m)) s

pub index_cases : (P : ℕ → Type 0) → P 0 → P 1 → P 2 → P 3 → (i : ℕ) → i < 4 → P i
index_cases P p q r s zero h = p
index_cases P p q r s (suc zero) h = q
index_cases P p q r s (suc (suc zero)) h = r
index_cases P p q r s (suc (suc (suc zero))) h = s
index_cases P p q r s (suc (suc (suc (suc i)))) h = absurd (omega (arith, h))

-- The product of a matrix and its adjugate, with entries of at most `c` and 24·c⁴ below the width, is
-- the determinant on the diagonal and zero beside it.
pub mat_mul-adjugate :
    (n c : ℕ) (m : Matrix) (i k : ℕ)
    → IsSmall n c m
    → 24 * (c * (c * (c * c))) < cap n
    → i < 4
    → k < 4
    → to_ℤ (entry (mat_mul n m (adjugate m)) i k) ≡ (if i == k then to_ℤ (det m) else pos 0)
unfolding mat_mul adjugate transpose
mat_mul-adjugate n c m i k small fits below_i below_k =
    let d = sym (det-Exact n c m small fits).exact in
    index_cases
      (λ i. to_ℤ (entry (mat_mul n m (adjugate m)) i k) ≡ (if i == k then to_ℤ (det m) else pos 0))
      (index_cases
        (λ k.
          to_ℤ (entry (mat_mul n m (adjugate m)) 0 k) ≡ (if 0 == k then to_ℤ (det m) else pos 0))
        (product_at n c m 0 0 det_expr small fits (omega arith) refl ∙ d)
        (product_at n c m 0 1 nil small fits (omega arith) refl)
        (product_at n c m 0 2 nil small fits (omega arith) refl)
        (product_at n c m 0 3 nil small fits (omega arith) refl) k below_k)
      (index_cases
        (λ k.
          to_ℤ (entry (mat_mul n m (adjugate m)) 1 k) ≡ (if 1 == k then to_ℤ (det m) else pos 0))
        (product_at n c m 1 0 nil small fits (omega arith) refl)
        (product_at n c m 1 1 det_expr small fits (omega arith) refl ∙ d)
        (product_at n c m 1 2 nil small fits (omega arith) refl)
        (product_at n c m 1 3 nil small fits (omega arith) refl) k below_k)
      (index_cases
        (λ k.
          to_ℤ (entry (mat_mul n m (adjugate m)) 2 k) ≡ (if 2 == k then to_ℤ (det m) else pos 0))
        (product_at n c m 2 0 nil small fits (omega arith) refl)
        (product_at n c m 2 1 nil small fits (omega arith) refl)
        (product_at n c m 2 2 det_expr small fits (omega arith) refl ∙ d)
        (product_at n c m 2 3 nil small fits (omega arith) refl) k below_k)
      (index_cases
        (λ k.
          to_ℤ (entry (mat_mul n m (adjugate m)) 3 k) ≡ (if 3 == k then to_ℤ (det m) else pos 0))
        (product_at n c m 3 0 nil small fits (omega arith) refl)
        (product_at n c m 3 1 nil small fits (omega arith) refl)
        (product_at n c m 3 2 nil small fits (omega arith) refl)
        (product_at n c m 3 3 det_expr small fits (omega arith) refl ∙ d) k below_k)
      i below_i
