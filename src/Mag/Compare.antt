-- ===== src/Mag/Compare.antt =====
-- Comparison and selection of magnitudes: src/quaternions/bigint/cmp.rs, ct.rs, and the effective
-- length of bits.rs.
pub mod Value
pub mod Order
pub mod Length
use Prim.Native.Nat.{Ordering}
use sqisign_selkie.Prelude.{
  ℕ, zero, suc, ◌-◌, bit_and, bit_or, bit_xor, List, [], ◌∷◌, length, get_or, ◌==◌, if◌then◌else◌,
}
use sqisign_selkie.Word.{as_u64, ct_gt_u64, ct_select_u64}

-- `acc |= a[i]`
pub or_limbs : List ℕ → ℕ → ℕ
or_limbs [] acc = acc
or_limbs (x ∷ xs) acc = or_limbs xs (bit_or acc x)

pub mag_is_zero : List ℕ → ℕ
mag_is_zero a = as_u64 (or_limbs a 0 == 0)

-- `acc |= a[i] ^ b[i]`
pub mag_eq_loop : List ℕ → List ℕ → ℕ → ℕ
mag_eq_loop [] ys acc = acc
mag_eq_loop (x ∷ xs) [] acc = acc
mag_eq_loop (x ∷ xs) (y ∷ ys) acc = mag_eq_loop xs ys (bit_or acc (bit_xor x y))

pub mag_eq : List ℕ → List ℕ → ℕ
mag_eq a b = as_u64 (mag_eq_loop a b 0 == 0)

-- The loop of `mag_cmp` over the indices below `i`, from the top: the flags `(gt, lt)`.
pub mag_cmp_loop : List ℕ → List ℕ → ℕ → ℕ → ℕ → ℕ × ℕ
mag_cmp_loop a b zero gt lt = (gt, lt)
mag_cmp_loop a b (suc i) gt lt =
    let undecided = 1 - bit_or gt lt in
    let x = get_or a i 0 in
    let y = get_or b i 0 in
    mag_cmp_loop a b i (bit_or gt (bit_and undecided (ct_gt_u64 x y)))
      (bit_or lt (bit_and undecided (ct_gt_u64 y x)))

pub mag_cmp : List ℕ → List ℕ → Ordering
mag_cmp a b =
    let (gt, lt) = mag_cmp_loop a b (length a) 0 0 in
    if gt == 1 then Ordering.gt else if lt == 1 then Ordering.lt else Ordering.eq

pub mag_select : List ℕ → List ℕ → ℕ → List ℕ
mag_select [] ys choice = []
mag_select (x ∷ xs) [] choice = []
mag_select (x ∷ xs) (y ∷ ys) choice = ct_select_u64 x y choice ∷ mag_select xs ys choice

-- The scan `while i > 0`, from the top limb down.
pub mag_effective_len_loop : List ℕ → ℕ → ℕ
mag_effective_len_loop a zero = 0
mag_effective_len_loop a (suc i) =
    let lower = mag_effective_len_loop a i in if get_or a i 0 == 0 then lower else suc i

pub mag_effective_len : List ℕ → ℕ
mag_effective_len a = mag_effective_len_loop a (length a)
