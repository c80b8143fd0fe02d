-- ===== src/Linear/Matrix/Cofactors.antt =====
-- The cofactors of `cofactor_and_det` are those of `adjugate`.
use sqisign_selkie.Prelude.{ℕ, ◌*◌, ◌≤◌, ◌<◌, ◌≡◌, refl, sym, ◌∙◌, arith, map, replicate, true}
use sqisign_selkie.Limbs.{cap}
use sqisign_selkie.Ring.Integers.{integers}
use sqisign_selkie.Ring.Polynomial.{Expr, ◌⊕◌, ◌⊖◌, ◌⊗◌, same, left_side, right_side}
use sqisign_selkie.Ring.Sound.{solve}
use sqisign_selkie.BigInt.{to_ℤ}
use sqisign_selkie.BigInt.Expression.{run, weight, run-Exact}
use sqisign_selkie.Linear.Matrix.{Matrix, entry, det, adjugate, transpose, cofactor_and_det}
use sqisign_selkie.Linear.Matrix.Values.{entries, IsSmall, at, minor2_expr, cofactor_and_det-det}
use sqisign_selkie.Linear.Matrix.Adjugate.{cofactor_expr, index_cases}

abbrev plus_expr : Expr → Expr → Expr → Expr → Expr → Expr → Expr
plus_expr x t y u z v = (x ⊗ t ⊖ y ⊗ u) ⊕ z ⊗ v

abbrev minus_expr : Expr → Expr → Expr → Expr → Expr → Expr → Expr
minus_expr x t y u z v = (x ⊗ t ⊖ y ⊗ u) ⊖ z ⊗ v

at_least : (c e : ℕ) → 1 ≤ c → e ≤ c * e
at_least c e h = grind arith

cube_fits : (c m : ℕ) → 1 ≤ c → 24 * (c * (c * (c * c))) < m → 6 * (c * (c * c)) < m
cube_fits c m h fits = omega (arith, at_least c (c * (c * c)) h, fits)

-- A cofactor computed in another way.
cofactor_at :
    (n c : ℕ) (m : Matrix) (i j : ℕ) (e : Expr)
    → IsSmall n c m
    → 24 * (c * (c * (c * c))) < cap n
    → weight e (replicate 16 c) ≡ 6 * (c * (c * c))
    → weight (cofactor_expr i j) (replicate 16 c) ≡ 6 * (c * (c * c))
    → same (left_side e (cofactor_expr i j)) (right_side e (cofactor_expr i j)) ≡ true
    → to_ℤ (run n e (entries m)) ≡ to_ℤ (run n (cofactor_expr i j) (entries m))
cofactor_at n c m i j e small fits w u s =
    let (valid, below, positive, rest) = small in
    let less = cube_fits c (cap n) positive fits in
    (run-Exact n e (entries m) (replicate 16 c) small (omega (arith, w, less))).exact
    ∙ solve integers e (cofactor_expr i j) (map to_ℤ (entries m)) s
    ∙ sym
        (run-Exact n (cofactor_expr i j) (entries m) (replicate 16 c) small
          (omega (arith, u, less))).exact

-- The two ways of `cofactor_and_det`, with entries of at most `c` and 24·c⁴ below the width: each entry
-- of its matrix is that of the transpose of `adjugate`, and its determinant is `det`.
pub cofactor_and_det-adjugate :
    (n c : ℕ) (m : Matrix) (i j : ℕ)
    → IsSmall n c m
    → 24 * (c * (c * (c * c))) < cap n
    → i < 4
    → j < 4
    → (to_ℤ (entry (cofactor_and_det m).0 i j) ≡ to_ℤ (entry (transpose (adjugate m)) i j))
      × (to_ℤ (cofactor_and_det m).1 ≡ to_ℤ (det m))
unfolding cofactor_and_det transpose adjugate
cofactor_and_det-adjugate n c m i j small fits below_i below_j = (
  index_cases
      (λ i. to_ℤ (entry (cofactor_and_det m).0 i j) ≡ to_ℤ (entry (transpose (adjugate m)) i j))
      (index_cases
        (λ j. to_ℤ (entry (cofactor_and_det m).0 0 j) ≡ to_ℤ (entry (transpose (adjugate m)) 0 j))
        (cofactor_at n c m 0 0
          (plus_expr (at 1 1) (minor2_expr 2 3 2 3) (at 1 2) (minor2_expr 2 3 1 3) (at 1 3)
            (minor2_expr 2 3 1 2))
          small fits (omega arith) (omega arith) refl)
        (cofactor_at n c m 0 1
          (minus_expr (at 1 2) (minor2_expr 2 3 0 3) (at 1 0) (minor2_expr 2 3 2 3) (at 1 3)
            (minor2_expr 2 3 0 2))
          small fits (omega arith) (omega arith) refl)
        (cofactor_at n c m 0 2
          (plus_expr (at 1 0) (minor2_expr 2 3 1 3) (at 1 1) (minor2_expr 2 3 0 3) (at 1 3)
            (minor2_expr 2 3 0 1))
          small fits (omega arith) (omega arith) refl)
        (cofactor_at n c m 0 3
          (minus_expr (at 1 1) (minor2_expr 2 3 0 2) (at 1 0) (minor2_expr 2 3 1 2) (at 1 2)
            (minor2_expr 2 3 0 1))
          small fits (omega arith) (omega arith) refl)
        j below_j)
      (index_cases
        (λ j. to_ℤ (entry (cofactor_and_det m).0 1 j) ≡ to_ℤ (entry (transpose (adjugate m)) 1 j))
        (cofactor_at n c m 1 0
          (minus_expr (at 0 2) (minor2_expr 2 3 1 3) (at 0 1) (minor2_expr 2 3 2 3) (at 0 3)
            (minor2_expr 2 3 1 2))
          small fits (omega arith) (omega arith) refl)
        (cofactor_at n c m 1 1
          (plus_expr (at 0 0) (minor2_expr 2 3 2 3) (at 0 2) (minor2_expr 2 3 0 3) (at 0 3)
            (minor2_expr 2 3 0 2))
          small fits (omega arith) (omega arith) refl)
        (cofactor_at n c m 1 2
          (minus_expr (at 0 1) (minor2_expr 2 3 0 3) (at 0 0) (minor2_expr 2 3 1 3) (at 0 3)
            (minor2_expr 2 3 0 1))
          small fits (omega arith) (omega arith) refl)
        (cofactor_at n c m 1 3
          (plus_expr (at 0 0) (minor2_expr 2 3 1 2) (at 0 1) (minor2_expr 2 3 0 2) (at 0 2)
            (minor2_expr 2 3 0 1))
          small fits (omega arith) (omega arith) refl)
        j below_j)
      (index_cases
        (λ j. to_ℤ (entry (cofactor_and_det m).0 2 j) ≡ to_ℤ (entry (transpose (adjugate m)) 2 j))
        (cofactor_at n c m 2 0
          (plus_expr (at 3 1) (minor2_expr 0 1 2 3) (at 3 2) (minor2_expr 0 1 1 3) (at 3 3)
            (minor2_expr 0 1 1 2))
          small fits (omega arith) (omega arith) refl)
        (cofactor_at n c m 2 1
          (minus_expr (at 3 2) (minor2_expr 0 1 0 3) (at 3 0) (minor2_expr 0 1 2 3) (at 3 3)
            (minor2_expr 0 1 0 2))
          small fits (omega arith) (omega arith) refl)
        (cofactor_at n c m 2 2
          (plus_expr (at 3 0) (minor2_expr 0 1 1 3) (at 3 1) (minor2_expr 0 1 0 3) (at 3 3)
            (minor2_expr 0 1 0 1))
          small fits (omega arith) (omega arith) refl)
        (cofactor_at n c m 2 3
          (minus_expr (at 3 1) (minor2_expr 0 1 0 2) (at 3 0) (minor2_expr 0 1 1 2) (at 3 2)
            (minor2_expr 0 1 0 1))
          small fits (omega arith) (omega arith) refl)
        j below_j)
      (index_cases
        (λ j. to_ℤ (entry (cofactor_and_det m).0 3 j) ≡ to_ℤ (entry (transpose (adjugate m)) 3 j))
        (cofactor_at n c m 3 0
          (minus_expr (at 2 2) (minor2_expr 0 1 1 3) (at 2 1) (minor2_expr 0 1 2 3) (at 2 3)
            (minor2_expr 0 1 1 2))
          small fits (omega arith) (omega arith) refl)
        (cofactor_at n c m 3 1
          (plus_expr (at 2 0) (minor2_expr 0 1 2 3) (at 2 2) (minor2_expr 0 1 0 3) (at 2 3)
            (minor2_expr 0 1 0 2))
          small fits (omega arith) (omega arith) refl)
        (cofactor_at n c m 3 2
          (minus_expr (at 2 1) (minor2_expr 0 1 0 3) (at 2 0) (minor2_expr 0 1 1 3) (at 2 3)
            (minor2_expr 0 1 0 1))
          small fits (omega arith) (omega arith) refl)
        (cofactor_at n c m 3 3
          (plus_expr (at 2 0) (minor2_expr 0 1 1 2) (at 2 1) (minor2_expr 0 1 0 2) (at 2 2)
            (minor2_expr 0 1 0 1))
          small fits (omega arith) (omega arith) refl)
        j below_j)
      i below_i,
  cofactor_and_det-det n c m small fits,
)
