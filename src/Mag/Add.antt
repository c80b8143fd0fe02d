-- ===== src/Mag/Add.antt =====
-- Addition of magnitudes, src/quaternions/bigint/add.rs: the full-width carry chain and the
-- length-bounded one.
pub mod Value
pub mod Short
use sqisign_selkie.Prelude.{
  ℕ, zero, suc, ◌+◌, max, Bool, ◌||◌, List, [], ◌∷◌, length, replicate, ◌==◌, if◌then◌else◌,
}
use sqisign_selkie.Word.{as_u64, overflowing_add}

-- One limb with its carry: two `overflowing_add`, and the carries joined by `|`.
pub add_limb : ℕ → ℕ → ℕ → ℕ × ℕ
add_limb x y carry =
    let (s1, c1) = overflowing_add x y in
    let (s2, c2) = overflowing_add s1 carry in (s2, as_u64 (c1 || c2))

-- The loop from a limb on, with the carry into it.
pub mag_add_loop : List ℕ → List ℕ → ℕ → List ℕ × ℕ
mag_add_loop [] ys carry = ([], carry)
mag_add_loop (x ∷ xs) [] carry = ([], carry)
mag_add_loop (x ∷ xs) (y ∷ ys) carry =
    let (s, c) = add_limb x y carry in let (rest, out) = mag_add_loop xs ys c in (s ∷ rest, out)

pub mag_add : List ℕ → List ℕ → List ℕ × ℕ
mag_add a b = mag_add_loop a b 0

-- `while carry != 0 && i < N`, over the limbs of `result` that are not yet written.
pub propagate_carry : List ℕ → ℕ → List ℕ × ℕ
propagate_carry [] carry = ([], carry)
propagate_carry (r ∷ rs) carry =
    let (s, c) = overflowing_add r carry in
    let (rest, out) = propagate_carry rs (as_u64 c) in
    if carry == 0 then (r ∷ rs, carry) else (s ∷ rest, out)

-- The loop `while i < lmax`, with `lmax - i` rounds left; then the carry goes on alone.
pub mag_add_short_loop : ℕ → List ℕ → List ℕ → List ℕ → ℕ → List ℕ × ℕ
mag_add_short_loop zero rs xs ys carry = propagate_carry rs carry
mag_add_short_loop (suc left) [] xs ys carry = ([], carry)
mag_add_short_loop (suc left) (r ∷ rs) [] ys carry = ([], carry)
mag_add_short_loop (suc left) (r ∷ rs) (x ∷ xs) [] carry = ([], carry)
mag_add_short_loop (suc left) (r ∷ rs) (x ∷ xs) (y ∷ ys) carry =
    let (s, c) = add_limb x y carry in
    let (rest, out) = mag_add_short_loop left rs xs ys c in (s ∷ rest, out)

pub mag_add_short : List ℕ → List ℕ → ℕ → ℕ → List ℕ × ℕ
mag_add_short a b la lb = mag_add_short_loop (max la lb) (replicate (length a) 0) a b 0
