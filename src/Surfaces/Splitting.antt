-- ===== src/Surfaces/Splitting.antt =====
-- The last step of a chain, from a surface to a product of curves:
-- src/surfaces/isogeny/splitting.rs, with the matrices of src/surfaces/precomputed.rs. The square root
-- of −1 is the argument `i`; the words that the source of randomness gives are a list, and where it
-- ends before a word that is accepted the answer is `none`, while the source samples without bound.
pub mod Laws
use sqisign_selkie.Prelude.{
  ℕ, zero, suc, ◌+◌, ◌-◌, ◌^◌, ◌%◌, bit_xor, Bool, true, false, Option, none, some, List, [], ◌∷◌,
  map, ◌==◌, ltb,
}
use sqisign_selkie.Int.{ℤ, pos, negsuc}
use sqisign_selkie.Fields.{Field}
use sqisign_selkie.Curves.Montgomery.{Curve, ProjectiveCoefficient, curve_from_projective}
use sqisign_selkie.Curves.Point.{ProjectiveXOnlyPoint, from_xz}
use sqisign_selkie.Surfaces.{
  ThetaNullPoint, Jacobian, JacobianPoint, GluingMatrix, Quad, apply_null, apply_point, matrix_mul,
}

pub data SplittingIndex : Type 0 where
  i00 i01 i02 i03 i10 i12 i20 i21 i30 i33 : SplittingIndex

abbrev pub splitting_indices : List (ℕ × ℕ × SplittingIndex)
splitting_indices =
    (0, 0, i00)
    ∷ (0, 1, i01)
    ∷ (0, 2, i02)
    ∷ (0, 3, i03)
    ∷ (1, 0, i10)
    ∷ (1, 2, i12)
    ∷ (2, 0, i20)
    ∷ (2, 1, i21)
    ∷ (3, 0, i30)
    ∷ (3, 3, i33)
    ∷ []

-- The two indices of an entry of the list.
abbrev pub chi : ℕ → ℕ → ℤ
chi zero zero = pos 1
chi zero (suc zero) = pos 1
chi zero (suc (suc zero)) = pos 1
chi zero (suc (suc (suc zero))) = pos 1
chi (suc zero) zero = pos 1
chi (suc zero) (suc (suc zero)) = pos 1
chi (suc (suc zero)) zero = pos 1
chi (suc (suc zero)) (suc zero) = pos 1
chi (suc (suc (suc zero))) zero = pos 1
chi (suc (suc (suc zero))) (suc (suc (suc zero))) = pos 1
chi (suc zero) (suc zero) = negsuc 0
chi (suc zero) (suc (suc (suc zero))) = negsuc 0
chi (suc (suc zero)) (suc (suc zero)) = negsuc 0
chi (suc (suc zero)) (suc (suc (suc zero))) = negsuc 0
chi (suc (suc (suc zero))) (suc zero) = negsuc 0
chi (suc (suc (suc zero))) (suc (suc zero)) = negsuc 0
chi i j = pos 0

-- `sample_normalization_index`: the first word below the bound, modulo 6. `none` stands for a source
-- that gives no such word.
unfoldable pub sample_normalization_index : List ℕ → Option ℕ
sample_normalization_index [] = none
sample_normalization_index (seed ∷ words) = elim (ltb seed 4294967292) [
  | true ↦ some (seed % 6)
  | false ↦ sample_normalization_index words
]

module _ (k : Field) where
  open k use {ct_eq}
  open k.ring use {Carrier, one, add, sub, neg, mul, square}

  pub record EllipticProduct : Type 0 where
    pub e1 : Curve k
    pub e2 : Curve k

  -- `coords[i]`
  abbrev pub coordinate : ThetaNullPoint k → ℕ → Carrier
  coordinate null zero = null.a
  coordinate null (suc zero) = null.b
  coordinate null (suc (suc zero)) = null.c
  coordinate null (suc (suc (suc i))) = null.d

  -- One round of the loop over `t`.
  abbrev pub u_step : ThetaNullPoint k → ℕ → ℕ → Carrier → ℕ → Carrier
  u_step null i j u t =
      let term = mul (coordinate null (bit_xor j t)) (coordinate null t) in
      elim (chi i t) [ pos zero ↦ u | pos (suc n) ↦ add u term | negsuc n ↦ sub u term ]

  unfoldable pub u_value : ThetaNullPoint k → ℕ → ℕ → Carrier
  u_value null i j =
      u_step null i j (u_step null i j (u_step null i j (u_step null i j k.ring.zero 0) 1) 2) 3

  unfoldable pub count_loop : ThetaNullPoint k → List (ℕ × ℕ × SplittingIndex) → ℕ → ℕ
  count_loop null [] count = count
  count_loop null ((i, j, idx) ∷ rest) count = elim (ct_eq (u_value null i j) k.ring.zero) [
    | true ↦ count_loop null rest (count + 1)
    | false ↦ count_loop null rest count
  ]

  unfoldable pub splitting_index_count : ThetaNullPoint k → ℕ
  splitting_index_count null = count_loop null splitting_indices 0

  unfoldable pub index_loop :
      ThetaNullPoint k → List (ℕ × ℕ × SplittingIndex) → SplittingIndex → SplittingIndex
  index_loop null [] result = result
  index_loop null ((i, j, idx) ∷ rest) result = elim (ct_eq (u_value null i j) k.ring.zero) [
    | true ↦ index_loop null rest idx
    | false ↦ index_loop null rest result
  ]

  unfoldable pub get_index_splitting : ThetaNullPoint k → SplittingIndex
  get_index_splitting null = index_loop null splitting_indices i00

  -- The matrices of `GluingMatrix::from`.
  abbrev pub splitting_matrix : Carrier → SplittingIndex → GluingMatrix k
  splitting_matrix i i00 =
      let n = neg one in
      let ni = neg i in
      record {
        r0 = (one, i, one, i);
        r1 = (one, ni, n, i);
        r2 = (one, i, n, ni);
        r3 = (n, i, n, i);
      }
  splitting_matrix i i10 =
      let n = neg one in
      record {
        r0 = (one, one, one, one);
        r1 = (one, n, n, one);
        r2 = (one, one, n, n);
        r3 = (n, one, n, one);
      }
  splitting_matrix i i20 =
      let n = neg one in
      record {
        r0 = (one, one, one, one);
        r1 = (one, n, one, n);
        r2 = (one, n, n, one);
        r3 = (n, n, one, one);
      }
  splitting_matrix i i30 =
      let n = neg one in
      record {
        r0 = (one, one, one, one);
        r1 = (one, n, one, n);
        r2 = (one, one, n, n);
        r3 = (n, one, one, n);
      }
  splitting_matrix i i01 =
      let n = neg one in
      let o = k.ring.zero in
      record { r0 = (one, o, o, o); r1 = (o, o, o, one); r2 = (o, o, one, o); r3 = (o, n, o, o) }
  splitting_matrix i i21 =
      let n = neg one in
      record {
        r0 = (one, one, one, one);
        r1 = (one, n, one, n);
        r2 = (one, n, n, one);
        r3 = (one, one, n, n);
      }
  splitting_matrix i i02 =
      let n = neg one in
      let o = k.ring.zero in
      record { r0 = (one, o, o, o); r1 = (o, one, o, o); r2 = (o, o, o, one); r3 = (o, o, n, o) }
  splitting_matrix i i12 =
      let o = k.ring.zero in
      record { r0 = (one, o, o, o); r1 = (o, one, o, o); r2 = (o, o, o, one); r3 = (o, o, one, o) }
  splitting_matrix i i03 =
      let n = neg one in
      let o = k.ring.zero in
      record { r0 = (one, o, o, o); r1 = (o, one, o, o); r2 = (o, o, one, o); r3 = (o, o, o, n) }
  splitting_matrix i i33 =
      let o = k.ring.zero in
      record { r0 = (one, o, o, o); r1 = (o, one, o, o); r2 = (o, o, one, o); r3 = (o, o, o, one) }

  -- `NORMALIZATION_TRANSFORMS[idx]`; the indices are below 6.
  abbrev pub normalization_transform : Carrier → ℕ → GluingMatrix k
  normalization_transform i zero =
      let o = k.ring.zero in
      record { r0 = (one, o, o, o); r1 = (o, one, o, o); r2 = (o, o, one, o); r3 = (o, o, o, one) }
  normalization_transform i (suc zero) =
      let o = k.ring.zero in
      record { r0 = (o, o, o, one); r1 = (o, o, one, o); r2 = (o, one, o, o); r3 = (one, o, o, o) }
  normalization_transform i (suc (suc zero)) =
      let n = neg one in
      record {
        r0 = (one, one, one, one);
        r1 = (one, n, one, n);
        r2 = (one, one, n, n);
        r3 = (one, n, n, one);
      }
  normalization_transform i (suc (suc (suc zero))) =
      let n = neg one in
      record {
        r0 = (one, n, n, one);
        r1 = (n, n, one, one);
        r2 = (n, one, n, one);
        r3 = (one, one, one, one);
      }
  normalization_transform i (suc (suc (suc (suc zero)))) =
      let n = neg one in
      record { r0 = (n, i, i, one); r1 = (i, n, one, i); r2 = (i, one, n, i); r3 = (one, i, i, n) }
  normalization_transform i idx =
      let n = neg one in
      record { r0 = (one, i, i, n); r1 = (i, one, n, i); r2 = (i, n, one, i); r3 = (n, i, i, one) }

  -- `EllipticProduct::from(&ThetaNullPoint)`
  unfoldable pub product_from_null : ThetaNullPoint k → EllipticProduct
  product_from_null null =
      let x = square (square null.a) in
      let y = square (square null.b) in
      let z = square (square null.c) in
      let pc2 : ProjectiveCoefficient k = record {
        a = neg (add (add x y) (add x y));
        c = sub x y;
      } in
      let pc1 : ProjectiveCoefficient k = record {
        a = neg (add (add x z) (add x z));
        c = sub x z;
      } in
      record { e1 = curve_from_projective k pc1; e2 = curve_from_projective k pc2 }

  unfoldable pub to_montgomery_on_product :
      JacobianPoint k
      → ThetaNullPoint k
      → EllipticProduct
      → ProjectiveXOnlyPoint k × ProjectiveXOnlyPoint k
  to_montgomery_on_product p null product =
      let x1 = add (mul null.a p.z) (mul null.c p.x) in
      let z1 = sub (mul null.a p.z) (mul null.c p.x) in
      let x2 = add (mul null.a p.y) (mul null.b p.x) in
      let z2 = sub (mul null.a p.y) (mul null.b p.x) in
      (from_xz k x1 z1 product.e1, from_xz k x2 z2 product.e2)

  -- The matrix that `isogeny` applies.
  unfoldable pub chosen_matrix :
      Carrier → ThetaNullPoint k → Option (List ℕ) → Option (GluingMatrix k)
  chosen_matrix i null none = some (splitting_matrix i (get_index_splitting null))
  chosen_matrix i null (some words) = elim (sample_normalization_index words) [
    | none ↦ none
    | some idx ↦ some (
        matrix_mul k (normalization_transform i idx)
          (splitting_matrix i (get_index_splitting null)))
  ]

  -- The answer from the matrix.
  abbrev pub split_by :
      ThetaNullPoint k
      → List (JacobianPoint k)
      → GluingMatrix k
      → EllipticProduct × List (ProjectiveXOnlyPoint k × ProjectiveXOnlyPoint k)
  split_by null pts m =
      let product_null = apply_null k m null in
      let product = product_from_null product_null in
      (product, map (λ p. to_montgomery_on_product (apply_point k m p) product_null product) pts)

  unfoldable pub splitting_isogeny :
      Carrier
      → Jacobian k
      → List (JacobianPoint k)
      → Option (List ℕ)
      → Option (EllipticProduct × List (ProjectiveXOnlyPoint k × ProjectiveXOnlyPoint k))
  splitting_isogeny i domain pts randomize = elim (splitting_index_count domain.null == 1) [
    | false ↦ none
    | true ↦ elim (chosen_matrix i domain.null randomize) [
      | none ↦ none
      | some m ↦ some (split_by domain.null pts m)
    ]
  ]
