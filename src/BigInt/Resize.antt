-- ===== src/BigInt/Resize.antt =====
-- Changes of width: src/quaternions/bigint/resize.rs. The compile-time assertions on the widths
-- are hypotheses of the theorems.
pub mod Value
use sqisign_selkie.Prelude.{
  ℕ, zero, suc, List, [], ◌∷◌, drop, length, Option, none, some, ◌==◌, ltb, bit_or, get_or,
  if◌then◌else◌,
}
use sqisign_selkie.Word.{as_u64}
use sqisign_selkie.Limbs.{zeros}
use sqisign_selkie.Mag.Compare.{or_limbs}
use sqisign_selkie.BigInt.{BigInt}

-- `let mut limbs = [0u64; W]`, and the loop that copies the lowest `n` limbs.
pub copy_limbs : ℕ → ℕ → List ℕ → List ℕ
copy_limbs w zero limbs = zeros w
copy_limbs zero (suc n) limbs = []
copy_limbs (suc w) (suc n) [] = zeros (suc w)
copy_limbs (suc w) (suc n) (x ∷ limbs) = x ∷ copy_limbs w n limbs

pub widen : ℕ → BigInt → BigInt
widen w x = record { sign = x.sign; limbs = copy_limbs w (length x.limbs) x.limbs }

pub narrow_to : ℕ → BigInt → Option BigInt
narrow_to t x =
    let overflow = or_limbs (drop t x.limbs) 0 in
    if overflow == 0 then some (record { sign = x.sign; limbs = copy_limbs t t x.limbs }) else none

pub resize_unchecked : ℕ → BigInt → BigInt
resize_unchecked w x =
    let n = if ltb (length x.limbs) w then length x.limbs else w in
    record { sign = x.sign; limbs = copy_limbs w n x.limbs }

-- The conversion from width 8 to width 4: the value that is always computed, and its flag.
pub narrow_ct : BigInt → BigInt × ℕ
narrow_ct wide =
    let w = λ (i : ℕ). get_or wide.limbs i 0 in
    let overflow = bit_or (bit_or (bit_or (bit_or 0 (w 4)) (w 5)) (w 6)) (w 7) in
    let fits = as_u64 (overflow == 0) in
    (record { sign = wide.sign; limbs = w 0 ∷ w 1 ∷ w 2 ∷ w 3 ∷ [] }, fits)

pub narrow : BigInt → Option BigInt
narrow x = let (value, fits) = narrow_ct x in if fits == 1 then some value else none
