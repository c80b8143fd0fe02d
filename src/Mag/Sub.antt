-- ===== src/Mag/Sub.antt =====
-- Subtraction of magnitudes: src/quaternions/bigint/sub.rs, and the length-bounded one of
-- src/quaternions/bigint/add.rs.
pub mod Value
pub mod Short
use sqisign_selkie.Prelude.{
  ℕ, zero, suc, ◌+◌, max, Bool, ◌||◌, List, [], ◌∷◌, length, replicate, ◌==◌, if◌then◌else◌,
}
use sqisign_selkie.Word.{as_u64, overflowing_sub, wrapping_sub}
use sqisign_selkie.Limbs.{zeros}

-- One limb with its borrow: two `overflowing_sub`, and the borrows joined by `|`.
pub sub_limb : ℕ → ℕ → ℕ → ℕ × ℕ
sub_limb x y borrow =
    let (d1, b1) = overflowing_sub x y in
    let (d2, b2) = overflowing_sub d1 borrow in (d2, as_u64 (b1 || b2))

-- The loop from a limb on, with the borrow into it.
pub mag_sub_loop : List ℕ → List ℕ → ℕ → List ℕ × ℕ
mag_sub_loop [] ys borrow = ([], borrow)
mag_sub_loop (x ∷ xs) [] borrow = ([], borrow)
mag_sub_loop (x ∷ xs) (y ∷ ys) borrow =
    let (d, b) = sub_limb x y borrow in let (rest, out) = mag_sub_loop xs ys b in (d ∷ rest, out)

pub mag_sub : List ℕ → List ℕ → List ℕ × ℕ
mag_sub a b = mag_sub_loop a b 0

pub mag_negate : List ℕ → List ℕ
mag_negate x = (mag_sub (zeros (length x)) x).0

-- `while borrow != 0 && i < N`, over the limbs of `result` that are not yet written.
pub propagate_borrow : List ℕ → ℕ → List ℕ × ℕ
propagate_borrow [] borrow = ([], borrow)
propagate_borrow (r ∷ rs) borrow =
    let (rest, out) = propagate_borrow rs borrow in
    if borrow == 0 then (r ∷ rs, borrow) else (wrapping_sub 0 borrow ∷ rest, out)

-- The loop `while i < lmax`, with `lmax - i` rounds left; then the borrow goes on alone.
pub mag_sub_short_loop : ℕ → List ℕ → List ℕ → List ℕ → ℕ → List ℕ × ℕ
mag_sub_short_loop zero rs xs ys borrow = propagate_borrow rs borrow
mag_sub_short_loop (suc left) [] xs ys borrow = ([], borrow)
mag_sub_short_loop (suc left) (r ∷ rs) [] ys borrow = ([], borrow)
mag_sub_short_loop (suc left) (r ∷ rs) (x ∷ xs) [] borrow = ([], borrow)
mag_sub_short_loop (suc left) (r ∷ rs) (x ∷ xs) (y ∷ ys) borrow =
    let (d, b) = sub_limb x y borrow in
    let (rest, out) = mag_sub_short_loop left rs xs ys b in (d ∷ rest, out)

pub mag_sub_short : List ℕ → List ℕ → ℕ → ℕ → List ℕ × ℕ
mag_sub_short a b la lb = mag_sub_short_loop (max la lb) (replicate (length a) 0) a b 0
