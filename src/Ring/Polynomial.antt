-- ===== src/Ring/Polynomial.antt =====
-- Polynomial expressions and their normal form, a list of monomials in a fixed order, each with the
-- exponents of its variables and a coefficient.
use Prim.Native.Nat.{compare, Ordering}
use sqisign_selkie.Prelude.{ℕ, zero, suc, ◌+◌, ◌*◌, List, [], ◌∷◌, Bool, true, false, ◌&&◌, ◌==◌}

infixl 65 ◌⊕◌ ◌⊖◌
infixl 70 ◌⊗◌
pub data Expr : Type 0 where
  var : ℕ → Expr
  nil unit : Expr
  ◌⊕◌ ◌⊖◌ ◌⊗◌ : Expr → Expr → Expr
  opposite squared : Expr → Expr

abbrev pub Poly : Type 0
Poly = List (ℕ × List ℕ)

abbrev pub compare_mono : List ℕ → List ℕ → Ordering
compare_mono [] [] = Ordering.eq
compare_mono [] (y ∷ k) = Ordering.lt
compare_mono (x ∷ m) [] = Ordering.gt
compare_mono (x ∷ m) (y ∷ k) = elim (compare x y) [
  | Ordering.lt ↦ Ordering.lt
  | Ordering.eq ↦ compare_mono m k
  | Ordering.gt ↦ Ordering.gt
]

abbrev pub mul_mono : List ℕ → List ℕ → List ℕ
mul_mono [] k = k
mul_mono (x ∷ m) [] = x ∷ m
mul_mono (x ∷ m) (y ∷ k) = (x + y) ∷ mul_mono m k

-- A term before, in or behind the head of a polynomial, by their order.
abbrev pub place : Ordering → ℕ → List ℕ → ℕ → List ℕ → Poly → Poly → Poly
place Ordering.lt c m d k p rest = (c, m) ∷ (d, k) ∷ p
place Ordering.eq c m d k p rest = (c + d, k) ∷ p
place Ordering.gt c m d k p rest = (d, k) ∷ rest

abbrev pub insert : ℕ → List ℕ → Poly → Poly
insert c m [] = (c, m) ∷ []
insert c m ((d, k) ∷ p) = let rest = insert c m p in place (compare_mono m k) c m d k p rest

abbrev pub add_poly : Poly → Poly → Poly
add_poly [] q = q
add_poly ((c, m) ∷ p) q = insert c m (add_poly p q)

abbrev pub mul_term : ℕ → List ℕ → Poly → Poly
mul_term c m [] = []
mul_term c m ((d, k) ∷ p) = insert (c * d) (mul_mono m k) (mul_term c m p)

abbrev pub mul_poly : Poly → Poly → Poly
mul_poly [] q = []
mul_poly ((c, m) ∷ p) q = add_poly (mul_term c m q) (mul_poly p q)

abbrev pub unit_mono : ℕ → List ℕ
unit_mono zero = 1 ∷ []
unit_mono (suc i) = 0 ∷ unit_mono i

-- The part that an expression adds and the part that it takes away.
abbrev pub normal : Expr → Poly × Poly
normal (var i) = ((1, unit_mono i) ∷ [], [])
normal nil = ([], [])
normal unit = ((1, []) ∷ [], [])
normal (e ⊕ f) = let (p, q) = normal e in let (r, s) = normal f in (add_poly p r, add_poly q s)
normal (e ⊖ f) = let (p, q) = normal e in let (r, s) = normal f in (add_poly p s, add_poly q r)
normal (e ⊗ f) =
    let (p, q) = normal e in
    let (r, s) = normal f in
    (add_poly (mul_poly p r) (mul_poly q s), add_poly (mul_poly p s) (mul_poly q r))
normal (opposite e) = let (p, q) = normal e in (q, p)
normal (squared e) =
    let (p, q) = normal e in
    (add_poly (mul_poly p p) (mul_poly q q), add_poly (mul_poly p q) (mul_poly q p))

-- The sums that agree where two expressions are equal.
abbrev pub left_side : Expr → Expr → Poly
left_side e f = add_poly (normal e).0 (normal f).1

abbrev pub right_side : Expr → Expr → Poly
right_side e f = add_poly (normal f).0 (normal e).1

-- The test of one normal form against another.
abbrev pub same_mono : List ℕ → List ℕ → Bool
same_mono [] [] = true
same_mono [] (y ∷ k) = false
same_mono (x ∷ m) [] = false
same_mono (x ∷ m) (y ∷ k) = (x == y) && same_mono m k

abbrev pub same : Poly → Poly → Bool
same [] [] = true
same [] (t ∷ q) = false
same (t ∷ p) [] = false
same ((c, m) ∷ p) ((d, k) ∷ q) = (c == d) && (same_mono m k && same p q)
