-- ===== src/Mag/Compare/Order.antt =====
-- `mag_cmp` decides by the highest limb in which the operands differ, which is the order of the
-- magnitudes.
use Prim.Native.Nat.{compare}
use native.Mathlib.Nat.{mul-le-mul_right}
use sqisign_selkie.Bits.{zero-bit_and}
use sqisign_selkie.Prelude.{ℕ, zero, suc, ◌+◌, ◌*◌, ◌≤◌, ◌<◌, ◌≡◌, refl, arith, List, get_or, ltb}
use sqisign_selkie.Word.{as_u64, ct_gt_u64}
use sqisign_selkie.Word.Laws.{ct_gt_u64_lem, fresh_flag}
use sqisign_selkie.Limbs.Low.{low, low-lt, low-suc, low_all}
use sqisign_selkie.Limbs.{IsLimbs, val, cap}
use sqisign_selkie.Limbs.Laws.{length-limbs}
use sqisign_selkie.Mag.Compare.{mag_cmp_loop, mag_cmp}

-- Once a flag is set the rest of the loop keeps both.
decided_gt : (a b : List ℕ) (i : ℕ) → mag_cmp_loop a b i 1 0 ≡ (1, 0)
unfolding mag_cmp_loop
decided_gt a b zero = refl
decided_gt a b (suc i) =
    rw
      (
        zero-bit_and (ct_gt_u64 (get_or a i 0) (get_or b i 0)),
        zero-bit_and (ct_gt_u64 (get_or b i 0) (get_or a i 0)),
      )
      (decided_gt a b i)

decided_lt : (a b : List ℕ) (i : ℕ) → mag_cmp_loop a b i 0 1 ≡ (0, 1)
unfolding mag_cmp_loop
decided_lt a b zero = refl
decided_lt a b (suc i) =
    rw
      (
        zero-bit_and (ct_gt_u64 (get_or a i 0) (get_or b i 0)),
        zero-bit_and (ct_gt_u64 (get_or b i 0) (get_or a i 0)),
      )
      (decided_lt a b i)

abbrev flags : ℕ → ℕ → ℕ × ℕ
flags x y = (as_u64 (ltb y x), as_u64 (ltb x y))

cmp_round :
    (a b : List ℕ) (i : ℕ)
    → mag_cmp_loop a b (suc i) 0 0
      ≡ mag_cmp_loop a b i
          (as_u64 (ltb (get_or b i 0) (get_or a i 0)))
          (as_u64 (ltb (get_or a i 0) (get_or b i 0)))
unfolding mag_cmp_loop
cmp_round a b i = rw (
  ct_gt_u64_lem (get_or a i 0) (get_or b i 0),
  ct_gt_u64_lem (get_or b i 0) (get_or a i 0),
  fresh_flag (ltb (get_or b i 0) (get_or a i 0)),
  fresh_flag (ltb (get_or a i 0) (get_or b i 0)),
)

-- The top limbs decide where they differ.
pub top_decides : (x y l m c : ℕ) → m < c → y < x → m + y * c < l + x * c
top_decides x y l m c h g = let p : suc y * c ≤ x * c = mul-le-mul_right c g in omega arith

cmp_loop_value :
    (n i : ℕ) (a b : List ℕ)
    → IsLimbs n a
    → IsLimbs n b
    → i ≤ n
    → mag_cmp_loop a b i 0 0 ≡ flags (low i a) (low i b)
cmp_loop_value n zero a b ha hb h = unfold mag_cmp_loop in refl
cmp_loop_value n (suc i) a b ha hb h =
    let rest = cmp_loop_value n i a b ha hb (omega arith) in
    ground (
      arith,
      rest,
      cmp_round a b i,
      low-suc n i a ha (omega arith),
      low-suc n i b hb (omega arith),
      decided_gt a b i,
      decided_lt a b i,
      top_decides (get_or a i 0) (get_or b i 0) (low i a) (low i b) (cap i) (low-lt n i b hb),
      top_decides (get_or b i 0) (get_or a i 0) (low i b) (low i a) (cap i) (low-lt n i a ha),
    )

-- `mag_cmp` is the order of the magnitudes.
pub mag_cmp_value :
    (n : ℕ) (a b : List ℕ) → IsLimbs n a → IsLimbs n b → mag_cmp a b ≡ compare (val a) (val b)
unfolding mag_cmp
mag_cmp_value n a b ha hb =
    rw
      (
        length-limbs n a ha,
        cmp_loop_value n n a b ha hb (omega arith),
        low_all n a ha,
        low_all n b hb,
      )
      (ground arith)
