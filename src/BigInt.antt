-- ===== src/BigInt.antt =====
-- `BigInt<N>` of src/quaternions/bigint.rs: a sign and a magnitude of `N` limbs. The width `N` is
-- the length of the limb array.
pub mod Sign
pub mod Add
pub mod Mul
pub mod Compare
pub mod Mac
pub mod Resize
pub mod Bits
pub mod From
pub mod Shift
pub mod Pow
pub mod Expression
use sqisign_selkie.Prelude.{
  ℕ, zero, suc, ◌-◌, ◌%◌, ◌≤◌, ◌<◌, ◌≡◌, ◌⊎◌, bit_and, bit_xor, List, set, ◌==◌, Bool, true, false,
  length,
}
use sqisign_selkie.Int.{ℤ, pos, negsuc, signed}
use sqisign_selkie.Word.{as_u64}
use sqisign_selkie.Limbs.{IsLimbs, val, cap, zeros}
use sqisign_selkie.Mag.Compare.{or_limbs, mag_is_zero}

pub record BigInt : Type 0 where
  pub sign : ℕ
  pub limbs : List ℕ

-- The representation invariant of the type: the sign is a flag, the array has `N` words.
pub record IsBigInt (n : ℕ) (x : BigInt) : Type 0 where
  pub flag : x.sign ≤ 1
  pub words : IsLimbs n x.limbs

-- "Zero is always represented with `sign == 0`."
abbrev pub IsCanonical : BigInt → Type 0
IsCanonical x = (x.sign ≡ 0) ⊎ (0 < val x.limbs)

-- The integer that a value stands for.
abbrev pub to_ℤ : BigInt → ℤ
to_ℤ x = signed x.sign (val x.limbs)

-- What `N` limbs keep of an integer: the sign, and the magnitude modulo 2 ^ (64 N).
abbrev pub truncated : ℕ → ℤ → ℤ
truncated n a = elim a [ pos m ↦ pos (m % cap n) | negsuc m ↦ signed 1 (suc m % cap n) ]

-- `let mut l = [0u64; N]; l[0] = v; l`
abbrev pub limb_array : ℕ → ℕ → List ℕ
limb_array n v = set (zeros n) 0 v

-- `ZERO`, `ONE`, `MINUS_ONE`, `TWO`, `THREE`
abbrev pub big_zero : ℕ → BigInt
big_zero n = record { sign = 0; limbs = zeros n }

abbrev pub big_one : ℕ → BigInt
big_one n = record { sign = 0; limbs = limb_array n 1 }

abbrev pub big_minus_one : ℕ → BigInt
big_minus_one n = record { sign = 1; limbs = limb_array n 1 }

abbrev pub big_two : ℕ → BigInt
big_two n = record { sign = 0; limbs = limb_array n 2 }

abbrev pub big_three : ℕ → BigInt
big_three n = record { sign = 0; limbs = limb_array n 3 }

-- `is_zero` and the like return a `Choice`, which is a flag.
pub is_zero : BigInt → ℕ
is_zero x = as_u64 (or_limbs x.limbs 0 == 0)

pub is_negative : BigInt → ℕ
is_negative x = let neg = bit_and x.sign 1 in let nonzero = 1 - is_zero x in bit_and neg nonzero

pub is_positive : BigInt → ℕ
is_positive x =
    let nonneg = 1 - bit_and x.sign 1 in let nonzero = 1 - is_zero x in bit_and nonneg nonzero

pub abs : BigInt → BigInt
abs x = record { sign = 0; limbs = x.limbs }

pub normalize : BigInt → BigInt
normalize x = let is_zero = is_zero x in record x { sign = bit_and x.sign (1 - is_zero) }

-- src/quaternions/bigint/neg.rs
pub wrapping_neg : BigInt → BigInt
wrapping_neg x =
    let is_zero = mag_is_zero x.limbs in
    record { sign = bit_and (bit_xor x.sign 1) (1 - is_zero); limbs = x.limbs }

-- The last step of the operations: a sign that is cleared where the magnitude is zero.
pub canonicalize : ℕ → List ℕ → BigInt
canonicalize sign limbs =
    let is_zero = mag_is_zero limbs in record { sign = bit_and sign (1 - is_zero); limbs = limbs }
