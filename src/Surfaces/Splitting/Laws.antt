-- ===== src/Surfaces/Splitting/Laws.antt =====
-- The splitting gives product structure: where one index vanishes, the matrix that is applied takes the
-- null point to one of a product, also behind a normalization.
use sqisign_selkie.Prelude.{
  ℕ, zero, suc, ◌≡◌, ◌≢◌, refl, sym, ap, ap₂, ◌∙◌, true, Bool-cases, inl, inr, ==_iff, ◌==◌, arith,
  Option, none, some, List, [], ◌∷◌,
}
use mathlib.Core.Option.{some-injective}
use sqisign_selkie.Ring.Polynomial.{Expr, var, nil, unit, ◌⊕◌, ◌⊖◌, ◌⊗◌, opposite, squared}
use sqisign_selkie.Ring.Sound.{solve, value}
use sqisign_selkie.Ring.Relations.{sub-multiple, sub-difference}
use sqisign_selkie.Fields.{Field}
use sqisign_selkie.Fields.Laws.{no_zero_divisors}
use sqisign_selkie.Surfaces.{
  ThetaNullPoint, Jacobian, JacobianPoint, GluingMatrix, Quad, apply_null, matrix_mul, matrix_by,
}
use sqisign_selkie.Surfaces.Laws.{ExprQuad, row_expr, row_by-row_times}
use sqisign_selkie.Curves.Point.{ProjectiveXOnlyPoint}
use sqisign_selkie.Surfaces.Splitting.{
  SplittingIndex, i00, i01, i02, i03, i10, i12, i20, i21, i30, i33, splitting_indices,
  sample_normalization_index, EllipticProduct, u_value, count_loop, splitting_index_count,
  index_loop, get_index_splitting, splitting_matrix, normalization_transform, chosen_matrix,
  split_by, splitting_isogeny,
}

abbrev m1 : Expr
m1 = opposite unit

abbrev f4 : Expr
f4 = (unit ⊕ unit) ⊕ (unit ⊕ unit)

abbrev m4 : Expr
m4 = opposite f4

abbrev coordinates : ExprQuad
coordinates = (var 0, var 1, var 2, var 3)

-- The determinant of the image as a 2×2 matrix, from the rows of the matrix that is applied.
abbrev product_expr : ExprQuad → ExprQuad → ExprQuad → ExprQuad → Expr
product_expr r0 r1 r2 r3 =
    row_expr r0 coordinates ⊗ row_expr r3 coordinates
    ⊖ row_expr r1 coordinates ⊗ row_expr r2 coordinates

-- The indices of a case.
abbrev indices_of : SplittingIndex → ℕ × ℕ
indices_of i00 = (0, 0)
indices_of i01 = (0, 1)
indices_of i02 = (0, 2)
indices_of i03 = (0, 3)
indices_of i10 = (1, 0)
indices_of i12 = (1, 2)
indices_of i20 = (2, 0)
indices_of i21 = (2, 1)
indices_of i30 = (3, 0)
indices_of i33 = (3, 3)

module _ (k : Field) where
  open k use {ct_eq}
  open k.ring use {Carrier, one, add, sub, neg, mul, square}

  abbrev pub two : Carrier
  two = add one one

  -- The null point of a product of curves: a·d = b·c.
  abbrev pub IsProduct : ThetaNullPoint k → Type 0
  IsProduct null = mul null.a null.d ≡ mul null.b null.c

  abbrev minor : ThetaNullPoint k → Carrier
  minor null = sub (mul null.a null.d) (mul null.b null.c)

  minor-IsProduct : (null : ThetaNullPoint k) → minor null ≡ k.ring.zero → IsProduct null
  minor-IsProduct null h =
      solve k.ring (var 0) ((var 0 ⊖ var 1) ⊕ var 1) (mul null.a null.d ∷ mul null.b null.c ∷ [])
        refl
      ∙ ap (λ t. add t (mul null.b null.c)) h
      ∙ k.ring.zero_add (mul null.b null.c)

  IsProduct-minor : (null : ThetaNullPoint k) → IsProduct null → minor null ≡ k.ring.zero
  IsProduct-minor null h =
      ap (λ t. sub t (mul null.b null.c)) h
      ∙ solve k.ring (var 0 ⊖ var 0) nil (mul null.b null.c ∷ []) refl

  -- What is zero with a multiple of what is zero taken away is zero.
  drop_multiple :
      (s n t : Carrier) → n ≡ k.ring.zero → sub s (mul n t) ≡ k.ring.zero → s ≡ k.ring.zero
  drop_multiple s n t h e = sym (sub-multiple k.ring s n t h) ∙ e

  drop_difference :
      (s m n t : Carrier) → m ≡ n → sub s (mul (sub m n) t) ≡ k.ring.zero → s ≡ k.ring.zero
  drop_difference s m n t h e = sym (sub-difference k.ring s m n t h) ∙ e

  abbrev environment : Carrier → ThetaNullPoint k → List Carrier
  environment i null = null.a ∷ null.b ∷ null.c ∷ null.d ∷ i ∷ []

  -- Twice the minor of the image is a multiple of the value that vanishes.
  split-minor :
      (i : Carrier) (null : ThetaNullPoint k) (idx : SplittingIndex)
      → square i ≡ neg one
      → u_value k null (indices_of idx).0 (indices_of idx).1 ≡ k.ring.zero
      → mul two (minor (apply_null k (splitting_matrix k i idx) null)) ≡ k.ring.zero
  unfolding apply_null u_value
  split-minor i null i00 root h =
      let d =
        (unit ⊕ unit)
        ⊗ product_expr (unit, var 4, unit, var 4) (unit, opposite (var 4), m1, var 4)
            (unit, var 4, m1, opposite (var 4)) (m1, var 4, m1, var 4) in
      let rest = (unit ⊕ unit) ⊗ ((unit ⊕ unit) ⊗ (squared (var 1) ⊕ squared (var 3))) in
      drop_multiple _ _ (value k.ring m4 (environment i null)) h (
        drop_difference _ _ _ (value k.ring rest (environment i null)) root (
          solve k.ring
            ((d ⊖ ((((nil ⊕ var 0 ⊗ var 0) ⊕ var 1 ⊗ var 1) ⊕ var 2 ⊗ var 2) ⊕ var 3 ⊗ var 3) ⊗ m4)
              ⊖ (squared (var 4) ⊖ m1) ⊗ rest)
            nil (environment i null) refl))
  split-minor i null i01 root h = drop_multiple _ _ (value k.ring m1 (environment i null)) h (
      solve k.ring
        ((unit ⊕ unit)
            ⊗ product_expr (unit, nil, nil, nil) (nil, nil, nil, unit) (nil, nil, unit, nil)
                (nil, m1, nil, nil)
          ⊖ ((((nil ⊕ var 1 ⊗ var 0) ⊕ var 0 ⊗ var 1) ⊕ var 3 ⊗ var 2) ⊕ var 2 ⊗ var 3) ⊗ m1)
        nil (environment i null) refl)
  split-minor i null i02 root h = drop_multiple _ _ (value k.ring m1 (environment i null)) h (
      solve k.ring
        ((unit ⊕ unit)
            ⊗ product_expr (unit, nil, nil, nil) (nil, unit, nil, nil) (nil, nil, nil, unit)
                (nil, nil, m1, nil)
          ⊖ ((((nil ⊕ var 2 ⊗ var 0) ⊕ var 3 ⊗ var 1) ⊕ var 0 ⊗ var 2) ⊕ var 1 ⊗ var 3) ⊗ m1)
        nil (environment i null) refl)
  split-minor i null i03 root h = drop_multiple _ _ (value k.ring m1 (environment i null)) h (
      solve k.ring
        ((unit ⊕ unit)
            ⊗ product_expr (unit, nil, nil, nil) (nil, unit, nil, nil) (nil, nil, unit, nil)
                (nil, nil, nil, m1)
          ⊖ ((((nil ⊕ var 3 ⊗ var 0) ⊕ var 2 ⊗ var 1) ⊕ var 1 ⊗ var 2) ⊕ var 0 ⊗ var 3) ⊗ m1)
        nil (environment i null) refl)
  split-minor i null i10 root h = drop_multiple _ _ (value k.ring m4 (environment i null)) h (
      solve k.ring
        ((unit ⊕ unit)
            ⊗ product_expr (unit, unit, unit, unit) (unit, m1, m1, unit) (unit, unit, m1, m1)
                (m1, unit, m1, unit)
          ⊖ ((((nil ⊕ var 0 ⊗ var 0) ⊖ var 1 ⊗ var 1) ⊕ var 2 ⊗ var 2) ⊖ var 3 ⊗ var 3) ⊗ m4)
        nil (environment i null) refl)
  split-minor i null i12 root h = drop_multiple _ _ (value k.ring unit (environment i null)) h (
      solve k.ring
        ((unit ⊕ unit)
            ⊗ product_expr (unit, nil, nil, nil) (nil, unit, nil, nil) (nil, nil, nil, unit)
                (nil, nil, unit, nil)
          ⊖ ((((nil ⊕ var 2 ⊗ var 0) ⊖ var 3 ⊗ var 1) ⊕ var 0 ⊗ var 2) ⊖ var 1 ⊗ var 3) ⊗ unit)
        nil (environment i null) refl)
  split-minor i null i20 root h = drop_multiple _ _ (value k.ring m4 (environment i null)) h (
      solve k.ring
        ((unit ⊕ unit)
            ⊗ product_expr (unit, unit, unit, unit) (unit, m1, unit, m1) (unit, m1, m1, unit)
                (m1, m1, unit, unit)
          ⊖ ((((nil ⊕ var 0 ⊗ var 0) ⊕ var 1 ⊗ var 1) ⊖ var 2 ⊗ var 2) ⊖ var 3 ⊗ var 3) ⊗ m4)
        nil (environment i null) refl)
  split-minor i null i21 root h = drop_multiple _ _ (value k.ring f4 (environment i null)) h (
      solve k.ring
        ((unit ⊕ unit)
            ⊗ product_expr (unit, unit, unit, unit) (unit, m1, unit, m1) (unit, m1, m1, unit)
                (unit, unit, m1, m1)
          ⊖ ((((nil ⊕ var 1 ⊗ var 0) ⊕ var 0 ⊗ var 1) ⊖ var 3 ⊗ var 2) ⊖ var 2 ⊗ var 3) ⊗ f4)
        nil (environment i null) refl)
  split-minor i null i30 root h = drop_multiple _ _ (value k.ring m4 (environment i null)) h (
      solve k.ring
        ((unit ⊕ unit)
            ⊗ product_expr (unit, unit, unit, unit) (unit, m1, unit, m1) (unit, unit, m1, m1)
                (m1, unit, unit, m1)
          ⊖ ((((nil ⊕ var 0 ⊗ var 0) ⊖ var 1 ⊗ var 1) ⊖ var 2 ⊗ var 2) ⊕ var 3 ⊗ var 3) ⊗ m4)
        nil (environment i null) refl)
  split-minor i null i33 root h = drop_multiple _ _ (value k.ring unit (environment i null)) h (
      solve k.ring
        ((unit ⊕ unit)
            ⊗ product_expr (unit, nil, nil, nil) (nil, unit, nil, nil) (nil, nil, unit, nil)
                (nil, nil, nil, unit)
          ⊖ ((((nil ⊕ var 3 ⊗ var 0) ⊖ var 2 ⊗ var 1) ⊖ var 1 ⊗ var 2) ⊕ var 0 ⊗ var 3) ⊗ unit)
        nil (environment i null) refl)

  -- The normalizations keep a product.
  normalized-minor :
      (i : Carrier) (null : ThetaNullPoint k) (idx : ℕ)
      → square i ≡ neg one
      → minor null ≡ k.ring.zero
      → minor (apply_null k (normalization_transform k i idx) null) ≡ k.ring.zero
  unfolding apply_null
  normalized-minor i null zero root h =
      drop_multiple _ _ (value k.ring unit (environment i null)) h (
        solve k.ring
          (product_expr (unit, nil, nil, nil) (nil, unit, nil, nil) (nil, nil, unit, nil)
              (nil, nil, nil, unit)
            ⊖ (var 0 ⊗ var 3 ⊖ var 1 ⊗ var 2) ⊗ unit)
          nil (environment i null) refl)
  normalized-minor i null (suc zero) root h =
      drop_multiple _ _ (value k.ring unit (environment i null)) h (
        solve k.ring
          (product_expr (nil, nil, nil, unit) (nil, nil, unit, nil) (nil, unit, nil, nil)
              (unit, nil, nil, nil)
            ⊖ (var 0 ⊗ var 3 ⊖ var 1 ⊗ var 2) ⊗ unit)
          nil (environment i null) refl)
  normalized-minor i null (suc (suc zero)) root h =
      drop_multiple _ _ (value k.ring f4 (environment i null)) h (
        solve k.ring
          (product_expr (unit, unit, unit, unit) (unit, m1, unit, m1) (unit, unit, m1, m1)
              (unit, m1, m1, unit)
            ⊖ (var 0 ⊗ var 3 ⊖ var 1 ⊗ var 2) ⊗ f4)
          nil (environment i null) refl)
  normalized-minor i null (suc (suc (suc zero))) root h =
      drop_multiple _ _ (value k.ring f4 (environment i null)) h (
        solve k.ring
          (product_expr (unit, m1, m1, unit) (m1, m1, unit, unit) (m1, unit, m1, unit)
              (unit, unit, unit, unit)
            ⊖ (var 0 ⊗ var 3 ⊖ var 1 ⊗ var 2) ⊗ f4)
          nil (environment i null) refl)
  normalized-minor i null (suc (suc (suc (suc zero)))) root h =
      let d =
        product_expr (m1, var 4, var 4, unit) (var 4, m1, unit, var 4) (var 4, unit, m1, var 4)
          (unit, var 4, var 4, m1) in
      let rest = squared (var 1 ⊕ var 2) ⊖ squared (var 0 ⊕ var 3) in
      drop_multiple _ _ (value k.ring f4 (environment i null)) h (
        drop_difference _ _ _ (value k.ring rest (environment i null)) root (
          solve k.ring ((d ⊖ (var 0 ⊗ var 3 ⊖ var 1 ⊗ var 2) ⊗ f4) ⊖ (squared (var 4) ⊖ m1) ⊗ rest)
            nil (environment i null) refl))
  normalized-minor i null (suc (suc (suc (suc (suc idx))))) root h =
      let d =
        product_expr (unit, var 4, var 4, m1) (var 4, unit, m1, var 4) (var 4, m1, unit, var 4)
          (m1, var 4, var 4, unit) in
      let rest = squared (var 1 ⊕ var 2) ⊖ squared (var 0 ⊕ var 3) in
      drop_multiple _ _ (value k.ring f4 (environment i null)) h (
        drop_difference _ _ _ (value k.ring rest (environment i null)) root (
          solve k.ring ((d ⊖ (var 0 ⊗ var 3 ⊖ var 1 ⊗ var 2) ⊗ f4) ⊖ (squared (var 4) ⊖ m1) ⊗ rest)
            nil (environment i null) refl))

  -- The value at the indices of a case.
  abbrev u_at : ThetaNullPoint k → SplittingIndex → Carrier
  u_at null idx = u_value k null (indices_of idx).0 (indices_of idx).1

  -- Every entry of the list has the indices of its case.
  abbrev Entries : ThetaNullPoint k → List (ℕ × ℕ × SplittingIndex) → Type 0
  Entries null [] = Unit
  Entries null ((i, j, idx) ∷ l) = (u_value k null i j ≡ u_at null idx) × Entries null l

  -- A result that vanishes stays one that does.
  index_loop-vanishes :
      (null : ThetaNullPoint k) (l : List (ℕ × ℕ × SplittingIndex)) (result : SplittingIndex)
      → Entries null l
      → u_at null result ≡ k.ring.zero
      → u_at null (index_loop k null l result) ≡ k.ring.zero
  unfolding index_loop
  index_loop-vanishes null [] result h e = e
  index_loop-vanishes null ((i, j, idx) ∷ l) result (same, h) e =
      elim (Bool-cases (ct_eq (u_value k null i j) k.ring.zero)) [
        | inl hit ↦
            let vanishes = (k.ct_eq_iff (u_value k null i j) k.ring.zero).0 hit in
            rw (index_loop, hit) (index_loop-vanishes null l idx h (sym same ∙ vanishes))
        | inr miss ↦ rw (index_loop, miss) (index_loop-vanishes null l result h e)
      ]

  -- Where the count goes up, the result vanishes.
  counted-vanishes :
      (null : ThetaNullPoint k) (l : List (ℕ × ℕ × SplittingIndex)) (result : SplittingIndex)
      (n : ℕ)
      → Entries null l
      → count_loop k null l n ≢ n
      → u_at null (index_loop k null l result) ≡ k.ring.zero
  unfolding count_loop index_loop
  counted-vanishes null [] result n h ne = absurd (ne refl)
  counted-vanishes null ((i, j, idx) ∷ l) result n (same, h) ne =
      elim (Bool-cases (ct_eq (u_value k null i j) k.ring.zero)) [
        | inl hit ↦
            let vanishes = (k.ct_eq_iff (u_value k null i j) k.ring.zero).0 hit in
            rw (index_loop, hit) (index_loop-vanishes null l idx h (sym same ∙ vanishes))
        | inr miss ↦
            rw (index_loop, miss)
              (counted-vanishes null l result n h (λ e. ne (rw (count_loop, miss) e)))
      ]

  count-vanishes :
      (null : ThetaNullPoint k)
      → splitting_index_count k null ≡ 1
      → u_at null (get_index_splitting k null) ≡ k.ring.zero
  unfolding splitting_index_count get_index_splitting
  count-vanishes null counted =
      counted-vanishes null splitting_indices i00 0
        (refl, (refl, (refl, (refl, (refl, (refl, (refl, (refl, (refl, (refl, tt))))))))))
        (λ e. absurd (omega (arith, e, counted)))

  apply_null-matrix_mul :
      (m n : GluingMatrix k) (null : ThetaNullPoint k)
      → apply_null k (matrix_mul k m n) null ≡ apply_null k m (apply_null k n null)
  unfolding apply_null matrix_mul matrix_by
  apply_null-matrix_mul m n null =
      let v : Quad k = (null.a, null.b, null.c, null.d) in
      ap₂ (λ (s t : Carrier × Carrier). record { a = s.0; b = s.1; c = t.0; d = t.1 })
        (ap₂ (λ (s t : Carrier). (s, t)) (row_by-row_times k m.r0 n v)
          (row_by-row_times k m.r1 n v))
        (ap₂ (λ (s t : Carrier). (s, t)) (row_by-row_times k m.r2 n v)
          (row_by-row_times k m.r3 n v))

  split-IsProduct :
      (i : Carrier) (null : ThetaNullPoint k) (idx : SplittingIndex)
      → square i ≡ neg one
      → two ≢ k.ring.zero
      → u_at null idx ≡ k.ring.zero
      → IsProduct (apply_null k (splitting_matrix k i idx) null)
  split-IsProduct i null idx root odd h =
      let image = apply_null k (splitting_matrix k i idx) null in
      minor-IsProduct image
        (no_zero_divisors k two (minor image) odd (split-minor i null idx root h))

  -- The matrix of a null point whose count is 1 takes it to the null point of a product of curves, with
  -- a normalization or without, in odd characteristic.
  chosen_matrix-IsProduct :
      (i : Carrier) (null : ThetaNullPoint k) (randomize : Option (List ℕ)) (m : GluingMatrix k)
      → square i ≡ neg one
      → two ≢ k.ring.zero
      → splitting_index_count k null ≡ 1
      → chosen_matrix k i null randomize ≡ some m
      → IsProduct (apply_null k m null)
  unfolding chosen_matrix splitting_index_count get_index_splitting
  chosen_matrix-IsProduct i null none m root odd one_zero chosen =
      rw (← some-injective _ _ chosen) (
        split-IsProduct i null (get_index_splitting k null) root odd (count-vanishes null one_zero))
  chosen_matrix-IsProduct i null (some words) m root odd one_zero chosen =
      sampled (sample_normalization_index words) refl
    where
      sampled :
          (drawn : Option ℕ)
          → sample_normalization_index words ≡ drawn
          → IsProduct (apply_null k m null)
      sampled none h = let e : none ≡ some m = rw (← chosen) (rw (chosen_matrix, h) refl) in cc
      sampled (some idx) h =
          let t = normalization_transform k i idx in
          let s = splitting_matrix k i (get_index_splitting k null) in
          let e : some (matrix_mul k t s) ≡ some m = rw (← chosen) (rw (chosen_matrix, h) refl) in
          let image = apply_null k s null in
          let split =
            split-IsProduct i null (get_index_splitting k null) root odd
              (count-vanishes null one_zero) in
          rw (← some-injective _ _ e, apply_null-matrix_mul t s null)
            (minor-IsProduct (apply_null k t image)
              (normalized-minor i image idx root (IsProduct-minor image split)))

  -- Without randomization a count of 1 has an answer.
  pub splitting_isogeny-some :
      (i : Carrier) (domain : Jacobian k) (pts : List (JacobianPoint k))
      → splitting_index_count k domain.null ≡ 1
      → splitting_isogeny k i domain pts none
        ≡ some
            (split_by k domain.null pts (splitting_matrix k i (get_index_splitting k domain.null)))
  unfolding splitting_isogeny chosen_matrix
  splitting_isogeny-some i domain pts counted =
      let hit = (==_iff (splitting_index_count k domain.null) 1).1 counted in
      rw (splitting_isogeny, hit) refl

  -- What `SplittingKernel::isogeny` answers, in odd characteristic: the count of the null point is 1,
  -- and the answer is that of a matrix that takes the null point to the null point of a product of
  -- curves, as the assertion of the conversion demands.
  pub splitting_isogeny-IsProduct :
      (i : Carrier) (domain : Jacobian k) (pts : List (JacobianPoint k))
      (randomize : Option (List ℕ))
      (answer : EllipticProduct k × List (ProjectiveXOnlyPoint k × ProjectiveXOnlyPoint k))
      → square i ≡ neg one
      → two ≢ k.ring.zero
      → splitting_isogeny k i domain pts randomize ≡ some answer
      → (splitting_index_count k domain.null ≡ 1)
        × (m : GluingMatrix k) × (chosen_matrix k i domain.null randomize ≡ some m)
        × IsProduct (apply_null k m domain.null)
        × (answer ≡ split_by k domain.null pts m)
  unfolding splitting_isogeny
  splitting_isogeny-IsProduct i domain pts randomize answer root odd answered =
      elim (Bool-cases (splitting_index_count k domain.null == 1)) [
        | inr miss ↦
            let e : none ≡ some answer = rw (← answered) (rw (splitting_isogeny, miss) refl) in cc
        | inl hit ↦
            let counted = (==_iff (splitting_index_count k domain.null) 1).0 hit in
            let (m, h, product, same) =
              chosen hit counted (chosen_matrix k i domain.null randomize) refl in
            (counted, m, h, product, same)
      ]
    where
      chosen :
          (splitting_index_count k domain.null == 1) ≡ true
          → splitting_index_count k domain.null ≡ 1
          → (found : Option (GluingMatrix k)) → chosen_matrix k i domain.null randomize ≡ found
          → (m : GluingMatrix k) × (chosen_matrix k i domain.null randomize ≡ some m)
            × IsProduct (apply_null k m domain.null)
            × (answer ≡ split_by k domain.null pts m)
      chosen hit counted none h =
          let e : none ≡ some answer = rw (← answered) (rw (splitting_isogeny, hit, h) refl) in cc
      chosen hit counted (some m) h =
          let e : some (split_by k domain.null pts m) ≡ some answer =
            rw (← answered) (rw (splitting_isogeny, hit, h) refl) in
          (
            m,
            h,
            chosen_matrix-IsProduct i domain.null randomize m root odd counted h,
            sym (some-injective _ _ e),
          )
