-- ===== src/Mag/Shift.antt =====
-- Shifts of magnitudes: src/quaternions/bigint/shift.rs.
pub mod Limb
pub mod Value
pub mod Left
use sqisign_selkie.Prelude.{
  ℕ, zero, suc, ◌+◌, ◌-◌, ◌*◌, ◌/◌, ◌%◌, ◌^◌, bit_and, bit_or, List, [], ◌∷◌, length, get_or, ◌==◌,
  ltb, leb, Bool, if◌then◌else◌,
}
use sqisign_selkie.Word.{radix, as_u64, ct_select_u64}

-- `(src >> r) | (carry << (64 - r))`, without the shift by 64.
pub shr_limb : ℕ → ℕ → ℕ → ℕ
shr_limb r src carry = if r == 0 then src else bit_or (src / 2 ^ r) (carry * 2 ^ (64 - r) % radix)

-- The limbs from index `i` on, with `left` of them to go; a limb out of range reads as 0.
pub mag_shr_loop : List ℕ → ℕ → ℕ → ℕ → ℕ → List ℕ
mag_shr_loop a r j i zero = []
mag_shr_loop a r j i (suc left) =
    shr_limb r (get_or a (i + j) 0) (get_or a (i + j + 1) 0) ∷ mag_shr_loop a r j (i + 1) left

pub mag_shr : List ℕ → ℕ → List ℕ
mag_shr a s = let r = s % 64 in let j = s / 64 in mag_shr_loop a r j 0 (length a)

-- `(src << r) | (carry >> (64 - r))`, without the shift by 64.
pub shl_limb : ℕ → ℕ → ℕ → ℕ
shl_limb r src carry = if r == 0 then src else bit_or (src * 2 ^ r % radix) (carry / 2 ^ (64 - r))

-- The loop over the indices below `i`, from the top, with the indicator `l` and the limbs of
-- `result` from index `i` on; the limb at the next index is still 0.
pub mag_shl_loop : List ℕ → ℕ → ℕ → ℕ → ℕ → List ℕ → List ℕ
mag_shl_loop a r j zero l above = above
mag_shl_loop a r j (suc i) l above =
    let cleared = ct_select_u64 0 0 l in
    let l' = bit_and l (as_u64 (leb j i)) in
    let src = if leb j i then get_or a (i - j) 0 else 0 in
    let carry = if ltb j i then get_or a (i - j - 1) 0 else 0 in
    let limb = if leb j i then ct_select_u64 cleared (shl_limb r src carry) l' else cleared in
    mag_shl_loop a r j i l' (limb ∷ above)

pub mag_shl : List ℕ → ℕ → List ℕ
mag_shl a s = let r = s % 64 in let j = s / 64 in mag_shl_loop a r j (length a) 1 []
