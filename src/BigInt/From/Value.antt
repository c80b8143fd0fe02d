-- ===== src/BigInt/From/Value.antt =====
-- The constructors give the integers that they are called with.
use sqisign_selkie.Prelude.{ℕ, zero, suc, ◌^◌, ◌≤◌, ◌<◌, ◌≡◌, inl, inr, refl, ap, ◌∙◌, arith}
use sqisign_selkie.Int.{ℤ, pos, negsuc, abs_ℤ, signed}
use sqisign_selkie.Word.{IsWord}
use sqisign_selkie.Limbs.{IsLimbs, val}
use sqisign_selkie.Limbs.Laws.{zeros-IsLimbs, val-zeros}
use sqisign_selkie.BigInt.{IsBigInt, IsCanonical, to_ℤ, limb_array}
use sqisign_selkie.BigInt.From.{from_u64, from_i64}

pub limb_array_value :
    (n v : ℕ) → 0 < n → IsWord v → (val (limb_array n v) ≡ v) × IsLimbs n (limb_array n v)
limb_array_value zero v h w = absurd (omega arith)
limb_array_value (suc n) v h w = (omega (arith, val-zeros n), (w, zeros-IsLimbs n))

-- Every `u64` is the value of its `from_u64`, at each width of at least one limb.
pub from_u64_value :
    (n v : ℕ)
    → 0 < n
    → IsWord v
    → (to_ℤ (from_u64 n v) ≡ pos v) × IsBigInt n (from_u64 n v) × IsCanonical (from_u64 n v)
unfolding from_u64
from_u64_value n v h w =
    let (e, words) = limb_array_value n v h w in
    (ap pos e, record { flag = omega arith; words = words }, inl refl)

-- Every `i64`, the least one included, is the value of its `from_i64`, at each width of at least one
-- limb.
pub from_i64_value :
    (n : ℕ) (a : ℤ)
    → 0 < n
    → abs_ℤ a ≤ 2 ^ 63
    → (to_ℤ (from_i64 n a) ≡ a) × IsBigInt n (from_i64 n a) × IsCanonical (from_i64 n a)
unfolding from_i64
from_i64_value n (pos v) h w =
    let (e, words) = limb_array_value n v h (omega arith) in
    (ap pos e, record { flag = omega arith; words = words }, inl refl)
from_i64_value n (negsuc v) h w =
    let (e, words) = limb_array_value n (suc v) h (omega arith) in
    (
      ap (signed 1) e ∙ (ground arith),
      record { flag = omega arith; words = words },
      inr (omega (arith, e)),
    )
