-- ===== src/Algebra/Gaussian.antt =====
-- Quaternions as pairs z + w·j of Gaussian integers, with j·z = z̄·j and j² = −p: what the operations
-- of the algebra compute with.
use sqisign_selkie.Prelude.{◌≡◌}
use sqisign_selkie.Int.{ℤ, pos, ◌+ℤ◌, ◌-ℤ◌, ◌*ℤ◌}
use sqisign_selkie.BigInt.{to_ℤ}
use sqisign_selkie.Algebra.{Element}

pub record Gaussian : Type 0 where
  pub re : ℤ
  pub im : ℤ

abbrev pub plus : Gaussian → Gaussian → Gaussian
plus z w = record { re = z.re +ℤ w.re; im = z.im +ℤ w.im }

abbrev pub minus : Gaussian → Gaussian → Gaussian
minus z w = record { re = z.re -ℤ w.re; im = z.im -ℤ w.im }

abbrev pub times : Gaussian → Gaussian → Gaussian
times z w = record { re = z.re *ℤ w.re -ℤ z.im *ℤ w.im; im = z.re *ℤ w.im +ℤ z.im *ℤ w.re }

abbrev pub conj : Gaussian → Gaussian
conj z = record { re = z.re; im = pos 0 -ℤ z.im }

abbrev pub scale : ℤ → Gaussian → Gaussian
scale s z = record { re = s *ℤ z.re; im = s *ℤ z.im }

-- z + w·j
pub record Quaternion : Type 0 where
  pub z : Gaussian
  pub w : Gaussian

-- (z + w·j)·(u + v·j) = (z·u − p·w·v̄) + (z·v + w·ū)·j
abbrev pub quaternion_mul : ℤ → Quaternion → Quaternion → Quaternion
quaternion_mul p x y = record {
  z = minus (times x.z y.z) (scale p (times x.w (conj y.w)));
  w = plus (times x.z y.w) (times x.w (conj y.z));
}

-- The numerators of an element.
abbrev pub numerators : Element → Quaternion
numerators x = record {
  z = record { re = to_ℤ x.a; im = to_ℤ x.b };
  w = record { re = to_ℤ x.c; im = to_ℤ x.d };
}

-- |z|² + p·|w|²
abbrev pub quaternion_norm : ℤ → Quaternion → ℤ
quaternion_norm p x =
    (x.z.re *ℤ x.z.re +ℤ x.z.im *ℤ x.z.im) +ℤ p *ℤ (x.w.re *ℤ x.w.re +ℤ x.w.im *ℤ x.w.im)

abbrev pub quaternion_scale : ℤ → Quaternion → Quaternion
quaternion_scale s x = record { z = scale s x.z; w = scale s x.w }

abbrev pub quaternion_add : Quaternion → Quaternion → Quaternion
quaternion_add x y = record { z = plus x.z y.z; w = plus x.w y.w }

-- x / r = y / s, by cross-multiplication.
abbrev pub SameFraction : Quaternion → ℤ → Quaternion → ℤ → Type 0
SameFraction x r y s =
    (x.z.re *ℤ s ≡ y.z.re *ℤ r)
    × (x.z.im *ℤ s ≡ y.z.im *ℤ r)
    × (x.w.re *ℤ s ≡ y.w.re *ℤ r)
    × (x.w.im *ℤ s ≡ y.w.im *ℤ r)
