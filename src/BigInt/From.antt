-- ===== src/BigInt/From.antt =====
-- Values from primitive integers and limb arrays: src/quaternions/bigint/from.rs.
pub mod Value
use sqisign_selkie.Prelude.{ℕ, suc, List}
use sqisign_selkie.Int.{ℤ, pos, negsuc}
use sqisign_selkie.BigInt.{BigInt, limb_array}

unfoldable pub from_sign_and_limbs : ℕ → List ℕ → BigInt
from_sign_and_limbs sign limbs = record { sign = sign; limbs = limbs }

pub from_limbs : List ℕ → BigInt
from_limbs limbs = record { sign = 0; limbs = limbs }

pub from_limbs_neg : List ℕ → BigInt
from_limbs_neg limbs = record { sign = 1; limbs = limbs }

pub from_u64 : ℕ → ℕ → BigInt
from_u64 n x = record { sign = 0; limbs = limb_array n x }

-- `val < 0` and `val.unsigned_abs()` of an `i64`.
pub from_i64 : ℕ → ℤ → BigInt
from_i64 n (pos x) = record { sign = 0; limbs = limb_array n x }
from_i64 n (negsuc x) = record { sign = 1; limbs = limb_array n (suc x) }
