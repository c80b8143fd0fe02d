-- ===== src/Linear/Matrix/Values.antt =====
-- The determinants of a matrix as polynomials in its entries: they are exact where the entries are
-- small for the width, and agree.
use sqisign_selkie.Prelude.{
  ℕ, ◌+◌, ◌*◌, ◌<◌, ◌≡◌, refl, sym, ◌∙◌, subst, arith, List, [], ◌∷◌, map, replicate,
}
use sqisign_selkie.Limbs.{cap}
use sqisign_selkie.Ring.Integers.{integers}
use sqisign_selkie.Ring.Polynomial.{Expr, var, ◌⊕◌, ◌⊖◌, ◌⊗◌}
use sqisign_selkie.Ring.Sound.{solve, value}
use sqisign_selkie.BigInt.{BigInt, to_ℤ}
use sqisign_selkie.BigInt.Expression.{Bounded, run, weight, Exact, run-Exact}
use sqisign_selkie.Linear.Matrix.{Matrix, det, cofactor_and_det}

abbrev pub entries : Matrix → List BigInt
entries m =
    m.r0.a ∷ m.r0.b ∷ m.r0.c ∷ m.r0.d ∷ m.r1.a ∷ m.r1.b ∷ m.r1.c ∷ m.r1.d ∷ m.r2.a ∷ m.r2.b ∷ m.r2.c
    ∷ m.r2.d ∷ m.r3.a ∷ m.r3.b ∷ m.r3.c ∷ m.r3.d ∷ []

-- Every entry has `n` limbs and a magnitude of at most `c`.
abbrev pub IsSmall : ℕ → ℕ → Matrix → Type 0
IsSmall n c m = Bounded n (entries m) (replicate 16 c)

-- The entry as a variable.
abbrev pub at : ℕ → ℕ → Expr
at i j = var (4 * i + j)

abbrev pub minor_expr : ℕ × ℕ × ℕ → ℕ × ℕ × ℕ → Expr
minor_expr (r0, r1, r2) (c0, c1, c2) =
    (at r0 c0 ⊗ (at r1 c1 ⊗ at r2 c2 ⊖ at r1 c2 ⊗ at r2 c1)
      ⊖ at r0 c1 ⊗ (at r1 c0 ⊗ at r2 c2 ⊖ at r1 c2 ⊗ at r2 c0))
    ⊕ at r0 c2 ⊗ (at r1 c0 ⊗ at r2 c1 ⊖ at r1 c1 ⊗ at r2 c0)

abbrev pub det_expr : Expr
det_expr =
    ((at 0 0 ⊗ minor_expr (1, 2, 3) (1, 2, 3) ⊖ at 0 1 ⊗ minor_expr (1, 2, 3) (0, 2, 3))
      ⊕ at 0 2 ⊗ minor_expr (1, 2, 3) (0, 1, 3))
    ⊖ at 0 3 ⊗ minor_expr (1, 2, 3) (0, 1, 2)

abbrev pub minor2_expr : ℕ → ℕ → ℕ → ℕ → Expr
minor2_expr r s c d = at r c ⊗ at s d ⊖ at r d ⊗ at s c

abbrev block_expr : Expr
block_expr =
    let s = minor2_expr 0 1 in
    let t = minor2_expr 2 3 in
    ((((s 0 1 ⊗ t 2 3 ⊖ s 0 2 ⊗ t 1 3) ⊕ s 0 3 ⊗ t 1 2) ⊕ s 1 2 ⊗ t 0 3) ⊖ s 1 3 ⊗ t 0 2)
    ⊕ s 2 3 ⊗ t 0 1

det_weight : (c : ℕ) → weight det_expr (replicate 16 c) ≡ 24 * (c * (c * (c * c)))
det_weight c = omega arith

block_weight : (c : ℕ) → weight block_expr (replicate 16 c) ≡ 24 * (c * (c * (c * c)))
block_weight c = omega arith

-- With entries of magnitude at most `c`, where `c` is at least 1 and 24·c⁴ below the width, `det` has
-- that width and stands for the determinant over the integers, whose magnitude is at most 24·c⁴.
pub det-Exact :
    (n c : ℕ) (m : Matrix)
    → IsSmall n c m
    → 24 * (c * (c * (c * c))) < cap n
    → Exact n (det m) (value integers det_expr (map to_ℤ (entries m))) (24 * (c * (c * (c * c))))
unfolding det
det-Exact n c m small fits =
    subst (Exact n (run n det_expr (entries m)) (value integers det_expr (map to_ℤ (entries m))))
      (det_weight c)
      (run-Exact n det_expr (entries m) (replicate 16 c) small (omega (arith, det_weight c, fits)))

-- With entries of at most `c` and 24·c⁴ below the width, the determinant of the block expansion is that
-- of the expansion along the first row.
pub cofactor_and_det-det :
    (n c : ℕ) (m : Matrix)
    → IsSmall n c m
    → 24 * (c * (c * (c * c))) < cap n
    → to_ℤ (cofactor_and_det m).1 ≡ to_ℤ (det m)
unfolding cofactor_and_det
cofactor_and_det-det n c m small fits =
    let block =
      run-Exact n block_expr (entries m) (replicate 16 c) small
        (omega (arith, block_weight c, fits)) in
    block.exact
    ∙ solve integers block_expr det_expr (map to_ℤ (entries m)) refl
    ∙ sym (det-Exact n c m small fits).exact
