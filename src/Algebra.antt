-- ===== src/Algebra.antt =====
-- The quaternion algebra with i² = −1, j² = −p, k = ij: src/quaternions/algebra/mod.rs. The newtypes
-- `Coordinate` and `Denominator` are the values that they wrap; the first argument of an operation is
-- the width `N`, where it needs it.
pub mod Gaussian
pub mod Prime
pub mod Terms
pub mod Product
pub mod Norm
pub mod Sum
pub mod Width
use sqisign_selkie.Prelude.{
  ℕ, ◌-◌, ◌^◌, ◌*◌, min, length, Bool, ◌&&◌, ◌==◌, if◌then◌else◌, Option, none, some, List, [], ◌∷◌,
}
use sqisign_selkie.Int.{ℤ}
use sqisign_selkie.BigInt.{BigInt, big_zero, big_one, big_two, is_positive, wrapping_neg}
use sqisign_selkie.BigInt.Add.{vt_add, vt_sub}
use sqisign_selkie.BigInt.Mul.{vt_mul}
use sqisign_selkie.BigInt.Compare.{ct_eq}
use sqisign_selkie.BigInt.From.{from_i64, from_sign_and_limbs}
use sqisign_selkie.BigInt.Resize.{copy_limbs, widen, narrow_to}

abbrev pub Coordinate : Type 0
Coordinate = BigInt

abbrev pub Denominator : Type 0
Denominator = BigInt

-- `Denominator::new`
pub new_denominator : BigInt → Option Denominator
new_denominator val = if is_positive val == 1 then some val else none

-- (a + b·i + c·j + d·k) / denom
pub record Element : Type 0 where
  pub a : Coordinate
  pub b : Coordinate
  pub c : Coordinate
  pub d : Coordinate
  pub denom : Denominator

-- `ZERO`, `I`, `J`, `K`
abbrev pub element_zero : ℕ → Element
element_zero n = record {
  a = big_zero n;
  b = big_zero n;
  c = big_zero n;
  d = big_zero n;
  denom = big_one n;
}

abbrev pub element_i : ℕ → Element
element_i n = record {
  a = big_zero n;
  b = big_one n;
  c = big_zero n;
  d = big_zero n;
  denom = big_one n;
}

abbrev pub element_j : ℕ → Element
element_j n = record {
  a = big_zero n;
  b = big_zero n;
  c = big_one n;
  d = big_zero n;
  denom = big_one n;
}

abbrev pub element_k : ℕ → Element
element_k n = record {
  a = big_zero n;
  b = big_zero n;
  c = big_zero n;
  d = big_one n;
  denom = big_one n;
}

abbrev pub from_coords : ℕ → Coordinate → Coordinate → Coordinate → Coordinate → Element
from_coords n a b c d = record { a = a; b = b; c = c; d = d; denom = big_one n }

abbrev pub element_from_i64 : ℕ → ℤ → ℤ → ℤ → ℤ → Element
element_from_i64 n a b c d =
    from_coords n (from_i64 n a) (from_i64 n b) (from_i64 n c) (from_i64 n d)

unfoldable pub element_is_zero : ℕ → Element → Bool
element_is_zero n x =
    ct_eq x.a (big_zero n) == 1
    && ct_eq x.b (big_zero n) == 1
    && ct_eq x.c (big_zero n) == 1
    && ct_eq x.d (big_zero n) == 1

unfoldable pub conjugate : Element → Element
conjugate x = record {
  a = x.a;
  b = wrapping_neg x.b;
  c = wrapping_neg x.c;
  d = wrapping_neg x.d;
  denom = x.denom;
}

unfoldable pub trace : ℕ → Element → BigInt × BigInt
trace n x = let two_a = vt_mul x.a (big_two n) in (two_a, x.denom)

-- One coordinate of a sum of two fractions.
abbrev pub cross_sum : Coordinate → Denominator → Coordinate → Denominator → Coordinate
cross_sum u r v s = vt_add (vt_mul u s) (vt_mul v r)

unfoldable pub add : Element → Element → Element
add x y =
    if ct_eq x.denom y.denom == 1
    then record {
      a = vt_add x.a y.a;
      b = vt_add x.b y.b;
      c = vt_add x.c y.c;
      d = vt_add x.d y.d;
      denom = x.denom;
    }
    else record {
      a = cross_sum x.a x.denom y.a y.denom;
      b = cross_sum x.b x.denom y.b y.denom;
      c = cross_sum x.c x.denom y.c y.denom;
      d = cross_sum x.d x.denom y.d y.denom;
      denom = vt_mul x.denom y.denom;
    }

unfoldable pub sub : Element → Element → Element
sub x y = add x (record {
  a = wrapping_neg y.a;
  b = wrapping_neg y.b;
  c = wrapping_neg y.c;
  d = wrapping_neg y.d;
  denom = y.denom;
})

unfoldable pub scalar_mul : Element → BigInt → Element
scalar_mul x s = record {
  a = vt_mul x.a s;
  b = vt_mul x.b s;
  c = vt_mul x.c s;
  d = vt_mul x.d s;
  denom = x.denom;
}

-- `P_WIDE` of src/quaternions/precomputed.rs, the prime at eight limbs.
abbrev pub p_wide : List ℕ
p_wide = (2 ^ 64 - 1) ∷ (2 ^ 64 - 1) ∷ (2 ^ 64 - 1) ∷ (5 * 2 ^ 56 - 1) ∷ 0 ∷ 0 ∷ 0 ∷ 0 ∷ []

unfoldable pub p_at_width : ℕ → BigInt
p_at_width n = from_sign_and_limbs 0 (copy_limbs n (min (length p_wide) n) p_wide)

abbrev pub norm_of :
    BigInt → Coordinate → Coordinate → Coordinate → Coordinate → Denominator → BigInt × BigInt
norm_of p a b c d r =
    let numer =
      vt_add (vt_add (vt_mul a a) (vt_mul b b)) (vt_mul p (vt_add (vt_mul c c) (vt_mul d d))) in
    let denom_sq = vt_mul r r in (numer, denom_sq)

unfoldable pub norm_w : ℕ → Element → BigInt × BigInt
norm_w w x =
    norm_of (p_at_width w) (widen w x.a) (widen w x.b) (widen w x.c) (widen w x.d) (widen w x.denom)

unfoldable pub norm_direct : ℕ → Element → BigInt × BigInt
norm_direct n x = norm_of (p_at_width n) x.a x.b x.c x.d x.denom

-- The products of `mul_direct`, with the prime as an argument.
abbrev pub product_of : BigInt → Element → Element → Element
product_of p x y = record {
  a =
      vt_sub (vt_sub (vt_mul x.a y.a) (vt_mul x.b y.b))
        (vt_mul p (vt_add (vt_mul x.c y.c) (vt_mul x.d y.d)));
  b =
      vt_add (vt_add (vt_mul x.a y.b) (vt_mul x.b y.a))
        (vt_mul p (vt_sub (vt_mul x.c y.d) (vt_mul x.d y.c)));
  c = vt_add (vt_add (vt_sub (vt_mul x.a y.c) (vt_mul x.b y.d)) (vt_mul x.c y.a)) (vt_mul x.d y.b);
  d = vt_add (vt_sub (vt_add (vt_mul x.a y.d) (vt_mul x.b y.c)) (vt_mul x.c y.b)) (vt_mul x.d y.a);
  denom = vt_mul x.denom y.denom;
}

unfoldable pub mul_direct : ℕ → Element → Element → Element
mul_direct n x y = product_of (p_at_width n) x y

-- `?` on an option
infixl 40 ◌>>=◌
abbrev ◌>>=◌ : {A B : Type 0} → Option A → (A → Option B) → Option B
none >>= f = none
some a >>= f = f a

unfoldable pub element_narrow_to : ℕ → Element → Option Element
element_narrow_to t x = do
  a ← narrow_to t x.a
  b ← narrow_to t x.b
  c ← narrow_to t x.c
  d ← narrow_to t x.d
  denom ← narrow_to t x.denom
  some (record { a = a; b = b; c = c; d = d; denom = denom })

unfoldable pub element_eq : Element → Element → Bool
element_eq x y =
    ct_eq (vt_mul x.a y.denom) (vt_mul y.a x.denom) == 1
    && ct_eq (vt_mul x.b y.denom) (vt_mul y.b x.denom) == 1
    && ct_eq (vt_mul x.c y.denom) (vt_mul y.c x.denom) == 1
    && ct_eq (vt_mul x.d y.denom) (vt_mul y.d x.denom) == 1
