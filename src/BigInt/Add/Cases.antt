-- ===== src/BigInt/Add/Cases.antt =====
-- The branchless merge of `ct_add`, as the branches that it stands for.
use sqisign_selkie.Prelude.{
  ℕ, ◌-◌, ◌≤◌, ◌≡◌, refl, arith, bit_xor, Bool, true, false, List, ltb, ◌==◌, if◌then◌else◌,
}
use sqisign_selkie.Word.{as_u64, ct_select_u64}
use sqisign_selkie.Word.Laws.{ct_select_u64-zero, ct_select_u64-one}
use sqisign_selkie.Limbs.{IsLimbs, val}
use sqisign_selkie.Mag.Add.{mag_add}
use sqisign_selkie.Mag.Add.Value.{mag_add_value}
use sqisign_selkie.Mag.Sub.{mag_sub, mag_negate}
use sqisign_selkie.Mag.Sub.Value.{
  mag_sub_value, mag_sub-borrow, mag_negate-IsLimbs, mag_negate-mag_sub,
}
use sqisign_selkie.Mag.Compare.{mag_select}
use sqisign_selkie.Mag.Compare.Value.{mag_select-zero, mag_select-one}
use sqisign_selkie.BigInt.{BigInt, IsBigInt, canonicalize}
use sqisign_selkie.BigInt.Add.{ct_add}

-- The signed sum by the signs and the order of the magnitudes.
unfoldable pub add_by_cases : ℕ → ℕ → List ℕ → List ℕ → BigInt
add_by_cases s t a b =
    if bit_xor s t == 0
    then canonicalize s (mag_add a b).0
    else if ltb (val a) (val b)
    then canonicalize t (mag_sub b a).0
    else canonicalize s (mag_sub a b).0

merge_sign : ℕ → ℕ → ℕ → ℕ → ℕ
merge_sign s t borrow same = ct_select_u64 (ct_select_u64 t s (1 - borrow)) s same

merge_sign_lem :
    (s t : ℕ) (lt : Bool) (same : Bool)
    → s ≤ 1
    → t ≤ 1
    → merge_sign s t (as_u64 lt) (as_u64 same) ≡ (if same then s else if lt then t else s)
unfolding merge_sign
merge_sign_lem s t true true hs ht =
    rw (ct_select_u64-zero t s) (ct_select_u64-one t s (omega arith) (omega arith))
merge_sign_lem s t true false hs ht = rw (ct_select_u64-zero t s) (ct_select_u64-zero t s)
merge_sign_lem s t false true hs ht =
    rw (ct_select_u64-one t s (omega arith) (omega arith))
      (ct_select_u64-one s s (omega arith) (omega arith))
merge_sign_lem s t false false hs ht =
    rw (ct_select_u64-one t s (omega arith) (omega arith)) (ct_select_u64-zero s s)

merge_limbs : List ℕ → List ℕ → ℕ → ℕ → List ℕ
merge_limbs a b borrow same =
    mag_select (mag_select (mag_negate (mag_sub a b).0) (mag_sub a b).0 (1 - borrow))
      (mag_add a b).0 same

ct_add-merge :
    (x y : BigInt)
    → ct_add x y
      ≡ canonicalize
          (merge_sign x.sign y.sign
            (mag_sub x.limbs y.limbs).1
            (as_u64 (bit_xor x.sign y.sign == 0)))
          (merge_limbs x.limbs y.limbs
            (mag_sub x.limbs y.limbs).1
            (as_u64 (bit_xor x.sign y.sign == 0)))
unfolding ct_add merge_sign merge_limbs canonicalize
ct_add-merge x y = refl

module _ (n : ℕ) (a b : List ℕ) (ha : IsLimbs n a) (hb : IsLimbs n b) where
  diff_words : IsLimbs n (mag_sub a b).0
  diff_words = (mag_sub_value n a b ha hb).1

  sum_words : IsLimbs n (mag_add a b).0
  sum_words = (mag_add_value n a b ha hb).1

  negated_words : IsLimbs n (mag_negate (mag_sub a b).0)
  negated_words = mag_negate-IsLimbs n (mag_sub a b).0 diff_words

  merge_limbs_lem :
      (lt same : Bool)
      → merge_limbs a b (as_u64 lt) (as_u64 same) ≡ (
          if same
          then (mag_add a b).0
          else if lt
          then mag_negate (mag_sub a b).0
          else (mag_sub a b).0)
  unfolding merge_limbs
  merge_limbs_lem true true =
      rw (mag_select-zero n _ _ negated_words diff_words)
        (mag_select-one n _ _ negated_words sum_words)
  merge_limbs_lem true false =
      rw (mag_select-zero n _ _ negated_words diff_words)
        (mag_select-zero n _ _ negated_words sum_words)
  merge_limbs_lem false true =
      rw (mag_select-one n _ _ negated_words diff_words) (mag_select-one n _ _ diff_words sum_words)
  merge_limbs_lem false false =
      rw (mag_select-one n _ _ negated_words diff_words)
        (mag_select-zero n _ _ diff_words sum_words)

  branches :
      (s t : ℕ)
      → canonicalize (if bit_xor s t == 0 then s else if ltb (val a) (val b) then t else s) (
          if bit_xor s t == 0
          then (mag_add a b).0
          else if ltb (val a) (val b)
          then mag_negate (mag_sub a b).0
          else (mag_sub a b).0)
        ≡ add_by_cases s t a b
  unfolding add_by_cases
  branches s t = ground (arith, mag_negate-mag_sub n a b ha hb)

-- `ct_add` takes the branch that the signs and the order of the magnitudes name.
pub ct_add-eq :
    (n : ℕ) (x y : BigInt)
    → IsBigInt n x
    → IsBigInt n y
    → ct_add x y ≡ add_by_cases x.sign y.sign x.limbs y.limbs
ct_add-eq n x y hx hy =
    rw
      (
        ct_add-merge x y,
        mag_sub-borrow n x.limbs y.limbs hx.words hy.words,
        merge_sign_lem x.sign y.sign (ltb (val x.limbs) (val y.limbs)) (bit_xor x.sign y.sign == 0)
            hx.flag hy.flag,
        merge_limbs_lem n x.limbs y.limbs hx.words hy.words (ltb (val x.limbs) (val y.limbs))
            (bit_xor x.sign y.sign == 0),
      )
      (branches n x.limbs y.limbs hx.words hy.words x.sign y.sign)
