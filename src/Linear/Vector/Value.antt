-- ===== src/Linear/Vector/Value.antt =====
-- The dot product as a sum of integers.
use sqisign_selkie.Prelude.{ℕ, ◌≡◌, refl, ap, ap₂, ◌∙◌, arith}
use sqisign_selkie.Int.{pos, ◌+ℤ◌, ◌*ℤ◌}
use sqisign_selkie.BigInt.{BigInt, IsBigInt, IsCanonical, to_ℤ, truncated}
use sqisign_selkie.BigInt.Mul.{vt_mul}
use sqisign_selkie.BigInt.Mul.Value.{ct_mul_value, vt_mul-eq-ct_mul}
use sqisign_selkie.BigInt.Mac.Value.{mac_sum_value}
use sqisign_selkie.Linear.Vector.{Vector, dot, dot_terms}

pub record IsVector (n : ℕ) (u : Vector) : Type 0 where
  pub a : IsBigInt n u.a
  pub b : IsBigInt n u.b
  pub c : IsBigInt n u.c
  pub d : IsBigInt n u.d

product_value :
    (n : ℕ) (x y : BigInt)
    → IsBigInt n x
    → IsBigInt n y
    → (to_ℤ (vt_mul x y) ≡ truncated n (to_ℤ x *ℤ to_ℤ y)) × IsBigInt n (vt_mul x y)
product_value n x y h g =
    let (e, valid, canonical) = ct_mul_value n x y h g in rw (vt_mul-eq-ct_mul n x y h g) (e, valid)

-- `dot` is the canonical form of the sum of the four products, each truncated to `N` limbs and the
-- sum too; the partial sums are not.
pub dot_value :
    (n : ℕ) (u v : Vector)
    → IsVector n u
    → IsVector n v
    → (to_ℤ (dot n u v)
        ≡ truncated n (
            truncated n (to_ℤ u.a *ℤ to_ℤ v.a)
            +ℤ (truncated n (to_ℤ u.b *ℤ to_ℤ v.b)
                +ℤ (truncated n (to_ℤ u.c *ℤ to_ℤ v.c)
                    +ℤ (truncated n (to_ℤ u.d *ℤ to_ℤ v.d) +ℤ pos 0)))))
      × IsBigInt n (dot n u v)
      × IsCanonical (dot n u v)
unfolding dot
dot_value n u v h g =
    let (ea, va) = product_value n u.a v.a h.a g.a in
    let (eb, vb) = product_value n u.b v.b h.b g.b in
    let (ec, vc) = product_value n u.c v.c h.c g.c in
    let (ed, vd) = product_value n u.d v.d h.d g.d in
    let (e, valid, canonical) =
      mac_sum_value n (dot_terms u v) (va, (vb, (vc, (vd, tt)))) (omega arith) in
    (
      e ∙ ap (truncated n) (ap₂ ◌+ℤ◌ ea (ap₂ ◌+ℤ◌ eb (ap₂ ◌+ℤ◌ ec (ap₂ ◌+ℤ◌ ed refl)))),
      valid,
      canonical,
    )
