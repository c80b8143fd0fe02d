-- ===== src/Linear/Vector.antt =====
-- Vectors of four values: src/quaternions/linear/vector.rs.
pub mod Value
use sqisign_selkie.Prelude.{ℕ, List, Bool, ◌==◌, ◌&&◌, [], ◌∷◌}
use sqisign_selkie.BigInt.{BigInt, big_zero, wrapping_neg}
use sqisign_selkie.BigInt.Add.{vt_add, vt_sub}
use sqisign_selkie.BigInt.Mul.{vt_mul}
use sqisign_selkie.BigInt.Mac.{mac_sum}
use sqisign_selkie.BigInt.Compare.{ct_eq}
use sqisign_selkie.BigInt.Resize.{widen}

-- `Vector([a, b, c, d])`, which is also `Vector::new(a, b, c, d)`.
pub record Vector : Type 0 where
  pub a : BigInt
  pub b : BigInt
  pub c : BigInt
  pub d : BigInt

abbrev pub vector_zero : ℕ → Vector
vector_zero n = record { a = big_zero n; b = big_zero n; c = big_zero n; d = big_zero n }

-- The four products that `dot` adds up.
abbrev pub dot_terms : Vector → Vector → List BigInt
dot_terms u v = vt_mul u.a v.a ∷ vt_mul u.b v.b ∷ vt_mul u.c v.c ∷ vt_mul u.d v.d ∷ []

unfoldable pub dot : ℕ → Vector → Vector → BigInt
dot n u v = mac_sum n (dot_terms u v)

pub vector_widen : ℕ → Vector → Vector
vector_widen w u = record { a = widen w u.a; b = widen w u.b; c = widen w u.c; d = widen w u.d }

pub add : Vector → Vector → Vector
add u v = record { a = vt_add u.a v.a; b = vt_add u.b v.b; c = vt_add u.c v.c; d = vt_add u.d v.d }

pub sub : Vector → Vector → Vector
sub u v = record { a = vt_sub u.a v.a; b = vt_sub u.b v.b; c = vt_sub u.c v.c; d = vt_sub u.d v.d }

pub neg : Vector → Vector
neg u = record {
  a = wrapping_neg u.a;
  b = wrapping_neg u.b;
  c = wrapping_neg u.c;
  d = wrapping_neg u.d;
}

pub eq : Vector → Vector → Bool
eq u v = ct_eq u.a v.a == 1 && ct_eq u.b v.b == 1 && ct_eq u.c v.c == 1 && ct_eq u.d v.d == 1
