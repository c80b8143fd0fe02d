-- ===== src/Algebra/Terms.antt =====
-- The operations of the algebra as polynomials in the prime and the coordinates, which is variable 0
-- and the variables behind it.
use sqisign_selkie.Prelude.{ℕ, ◌+◌, ◌≤◌, List, [], ◌∷◌}
use sqisign_selkie.Int.{ℤ}
use sqisign_selkie.Ring.Polynomial.{Expr, var, ◌⊕◌, ◌⊖◌, ◌⊗◌, opposite}
use sqisign_selkie.BigInt.{BigInt}
use sqisign_selkie.BigInt.Expression.{Bounded, Exact}
use sqisign_selkie.Algebra.{Element}

pub record Terms : Type 0 where
  pub a : Expr
  pub b : Expr
  pub c : Expr
  pub d : Expr
  pub denom : Expr

-- The element whose parts are the variables from `k` on.
abbrev pub variables : ℕ → Terms
variables k = record {
  a = var k;
  b = var (k + 1);
  c = var (k + 2);
  d = var (k + 3);
  denom = var (k + 4);
}

abbrev pub conjugate_terms : Terms → Terms
conjugate_terms x = record x { b = opposite x.b; c = opposite x.c; d = opposite x.d }

abbrev pub norm_terms : Terms → Expr
norm_terms x = (x.a ⊗ x.a ⊕ x.b ⊗ x.b) ⊕ var 0 ⊗ (x.c ⊗ x.c ⊕ x.d ⊗ x.d)

-- As in the source.
abbrev pub product_terms : Terms → Terms → Terms
product_terms x y = record {
  a = (x.a ⊗ y.a ⊖ x.b ⊗ y.b) ⊖ var 0 ⊗ (x.c ⊗ y.c ⊕ x.d ⊗ y.d);
  b = (x.a ⊗ y.b ⊕ x.b ⊗ y.a) ⊕ var 0 ⊗ (x.c ⊗ y.d ⊖ x.d ⊗ y.c);
  c = ((x.a ⊗ y.c ⊖ x.b ⊗ y.d) ⊕ x.c ⊗ y.a) ⊕ x.d ⊗ y.b;
  d = ((x.a ⊗ y.d ⊕ x.b ⊗ y.c) ⊖ x.c ⊗ y.b) ⊕ x.d ⊗ y.a;
  denom = x.denom ⊗ y.denom;
}

-- As pairs of Gaussian integers.
abbrev pub pair_terms : Terms → Terms → Terms
pair_terms x y = record {
  a = (x.a ⊗ y.a ⊖ x.b ⊗ y.b) ⊖ var 0 ⊗ (x.c ⊗ y.c ⊖ x.d ⊗ opposite y.d);
  b = (x.a ⊗ y.b ⊕ x.b ⊗ y.a) ⊖ var 0 ⊗ (x.c ⊗ opposite y.d ⊕ x.d ⊗ y.c);
  c = (x.a ⊗ y.c ⊖ x.b ⊗ y.d) ⊕ (x.c ⊗ y.a ⊖ x.d ⊗ opposite y.b);
  d = (x.a ⊗ y.d ⊕ x.b ⊗ y.c) ⊕ (x.c ⊗ opposite y.b ⊕ x.d ⊗ y.a);
  denom = x.denom ⊗ y.denom;
}

abbrev pub parts : Element → List BigInt → List BigInt
parts x rest = x.a ∷ x.b ∷ x.c ∷ x.d ∷ x.denom ∷ rest

abbrev pub bounds : ℕ → List ℕ → List ℕ
bounds c rest = c ∷ c ∷ c ∷ c ∷ c ∷ rest

-- The coordinates and the denominator have `n` limbs and magnitudes of at most `c`.
abbrev pub IsSmall : ℕ → ℕ → Element → Type 0
IsSmall n c x = Bounded n (parts x []) (bounds c [])

pub small_parts :
    (n c : ℕ) (x : Element) (env : List BigInt) (bs : List ℕ)
    → IsSmall n c x
    → Bounded n env bs
    → Bounded n (parts x env) (bounds c bs)
small_parts n c x env bs (va, la, pa, (vb, lb, pb, (vc, lc, pc, (vd, ld, pd, (vr, lr, pr, last)))))
      h =
    (va, la, pa, (vb, lb, pb, (vc, lc, pc, (vd, ld, pd, (vr, lr, pr, h)))))

-- A prime of at most `q` in front of the parts.
pub with_prime :
    (n q : ℕ) (p : BigInt) (a : ℤ) (env : List BigInt) (bs : List ℕ)
    → Exact n p a q
    → 1 ≤ q
    → Bounded n env bs
    → Bounded n (p ∷ env) (q ∷ bs)
with_prime n q p a env bs h positive g =
    let e = h.exact in let l = h.below in (h.valid, rw e l, positive, g)
