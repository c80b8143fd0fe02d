-- ===== src/BigInt/Expression.antt =====
-- Polynomial expressions evaluated by the operations of `BigInt`: where a bound on the magnitudes of
-- every step stays below the width, the value is that of the expression over the integers.
use sqisign_selkie.Prelude.{
  ℕ, zero, suc, ◌+◌, ◌*◌, ◌≤◌, ◌<◌, ◌≡◌, refl, ap, ap₂, ◌∙◌, arith, List, [], ◌∷◌, map, get_or,
}
use sqisign_selkie.Int.{ℤ, pos, ◌+ℤ◌, ◌-ℤ◌, ◌*ℤ◌, abs_ℤ}
use sqisign_selkie.Int.Product.{abs-+ℤ, abs--ℤ, abs-*ℤ}
use sqisign_selkie.Limbs.{cap}
use sqisign_selkie.Limbs.Laws.{zeros-IsLimbs, val-zeros}
use sqisign_selkie.Ring.Integers.{integers}
use sqisign_selkie.Ring.Polynomial.{Expr, var, nil, unit, ◌⊕◌, ◌⊖◌, ◌⊗◌, opposite, squared}
use sqisign_selkie.Ring.Sound.{value, lookup}
use sqisign_selkie.BigInt.{BigInt, IsBigInt, to_ℤ, truncated, big_zero, big_one, wrapping_neg}
use sqisign_selkie.BigInt.Sign.{wrapping_neg_lem, truncated_fits}
use sqisign_selkie.BigInt.Add.{vt_add, vt_sub}
use sqisign_selkie.BigInt.Add.Value.{ct_add_value, vt_add-eq-ct_add, sub_value}
use sqisign_selkie.BigInt.Mul.{vt_mul}
use sqisign_selkie.BigInt.Mul.Value.{ct_mul_value, vt_mul-eq-ct_mul}

-- A value with its bound: a member of the environment.
abbrev pub Bounded : ℕ → List BigInt → List ℕ → Type 0
Bounded n [] [] = Unit
Bounded n [] (b ∷ bs) = ⊥
Bounded n (x ∷ env) [] = ⊥
Bounded n (x ∷ env) (b ∷ bs) = IsBigInt n x × (abs_ℤ (to_ℤ x) ≤ b) × (1 ≤ b) × Bounded n env bs

abbrev pub pick : ℕ → List BigInt → ℕ → BigInt
pick n [] i = big_one n
pick n (x ∷ env) zero = x
pick n (x ∷ env) (suc i) = pick n env i

-- The value of an expression computed by the variable-time operations.
abbrev pub run : ℕ → Expr → List BigInt → BigInt
run n (var i) env = pick n env i
run n nil env = big_zero n
run n unit env = big_one n
run n (e ⊕ f) env = vt_add (run n e env) (run n f env)
run n (e ⊖ f) env = vt_sub (run n e env) (run n f env)
run n (e ⊗ f) env = vt_mul (run n e env) (run n f env)
run n (opposite e) env = wrapping_neg (run n e env)
run n (squared e) env = vt_mul (run n e env) (run n e env)

-- The bound of an expression from the bounds of its variables.
abbrev pub weight : Expr → List ℕ → ℕ
weight (var i) bs = get_or bs i 1
weight nil bs = 1
weight unit bs = 1
weight (e ⊕ f) bs = weight e bs + weight f bs
weight (e ⊖ f) bs = weight e bs + weight f bs
weight (e ⊗ f) bs = weight e bs * weight f bs
weight (opposite e) bs = weight e bs
weight (squared e) bs = weight e bs * weight e bs

-- A value that stands for an integer with a bound.
pub record Exact (n : ℕ) (x : BigInt) (a : ℤ) (c : ℕ) : Type 0 where
  pub valid : IsBigInt n x
  pub exact : to_ℤ x ≡ a
  pub below : abs_ℤ a ≤ c

bound_positive :
    (n : ℕ) (env : List BigInt) (bs : List ℕ) (i : ℕ) → Bounded n env bs → 1 ≤ get_or bs i 1
bound_positive n [] [] i h = omega arith
bound_positive n [] (b ∷ bs) i h = absurd h
bound_positive n (x ∷ env) [] i h = absurd h
bound_positive n (x ∷ env) (b ∷ bs) zero (valid, small, least, rest) = least
bound_positive n (x ∷ env) (b ∷ bs) (suc i) (valid, small, least, rest) =
    bound_positive n env bs i rest

product_positive : (a b : ℕ) → 1 ≤ a → 1 ≤ b → 1 ≤ a * b
product_positive a b h g = grind arith

weight_positive :
    (n : ℕ) (env : List BigInt) (bs : List ℕ) (e : Expr) → Bounded n env bs → 1 ≤ weight e bs
weight_positive n env bs (var i) h = bound_positive n env bs i h
weight_positive n env bs nil h = omega arith
weight_positive n env bs unit h = omega arith
weight_positive n env bs (e ⊕ f) h = omega (arith, weight_positive n env bs e h)
weight_positive n env bs (e ⊖ f) h = omega (arith, weight_positive n env bs e h)
weight_positive n env bs (e ⊗ f) h =
    product_positive (weight e bs) (weight f bs) (weight_positive n env bs e h)
      (weight_positive n env bs f h)
weight_positive n env bs (opposite e) h = weight_positive n env bs e h
weight_positive n env bs (squared e) h =
    product_positive (weight e bs) (weight e bs) (weight_positive n env bs e h)
      (weight_positive n env bs e h)

add-Exact :
    (n : ℕ) (x y : BigInt) (a b : ℤ) (c d : ℕ)
    → Exact n x a c
    → Exact n y b d
    → c + d < cap n
    → Exact n (vt_add x y) (a +ℤ b) (c + d)
add-Exact n x y a b c d h g fits =
    let (value, valid, canonical) = ct_add_value n x y h.valid g.valid in
    let small = abs-+ℤ a b in
    rw (vt_add-eq-ct_add n x y h.valid g.valid) (record {
      valid = valid;
      exact =
          value
          ∙ ap (truncated n) (ap₂ ◌+ℤ◌ h.exact g.exact)
          ∙ truncated_fits n (a +ℤ b) (omega (arith, small, h.below, g.below));
      below = omega (arith, small, h.below, g.below);
    })

sub-Exact :
    (n : ℕ) (x y : BigInt) (a b : ℤ) (c d : ℕ)
    → Exact n x a c
    → Exact n y b d
    → c + d < cap n
    → Exact n (vt_sub x y) (a -ℤ b) (c + d)
sub-Exact n x y a b c d h g fits =
    let (same, value, valid, canonical) = sub_value n x y h.valid g.valid in
    let small = abs--ℤ a b in
    rw same (record {
      valid = valid;
      exact =
          value
          ∙ ap (truncated n) (ap₂ ◌-ℤ◌ h.exact g.exact)
          ∙ truncated_fits n (a -ℤ b) (omega (arith, small, h.below, g.below));
      below = omega (arith, small, h.below, g.below);
    })

product_below : (a b c d : ℕ) → a ≤ c → b ≤ d → a * b ≤ c * d
product_below a b c d h g = grind arith

mul-Exact :
    (n : ℕ) (x y : BigInt) (a b : ℤ) (c d : ℕ)
    → Exact n x a c
    → Exact n y b d
    → c * d < cap n
    → Exact n (vt_mul x y) (a *ℤ b) (c * d)
mul-Exact n x y a b c d h g fits =
    let (value, valid, canonical) = ct_mul_value n x y h.valid g.valid in
    let small : abs_ℤ (a *ℤ b) ≤ c * d =
      rw (abs-*ℤ a b) (product_below (abs_ℤ a) (abs_ℤ b) c d h.below g.below) in
    rw (vt_mul-eq-ct_mul n x y h.valid g.valid) (record {
      valid = valid;
      exact =
          value
          ∙ ap (truncated n) (ap₂ ◌*ℤ◌ h.exact g.exact)
          ∙ truncated_fits n (a *ℤ b) (omega (arith, small));
      below = small;
    })

abs_opposite : (a : ℤ) → abs_ℤ (pos 0 -ℤ a) ≤ abs_ℤ a
unfolding ◌-ℤ◌
abs_opposite a = ground arith

neg-Exact :
    (n : ℕ) (x : BigInt) (a : ℤ) (c : ℕ) → Exact n x a c → Exact n (wrapping_neg x) (pos 0 -ℤ a) c
neg-Exact n x a c h =
    let (value, valid, canonical) = wrapping_neg_lem n x h.valid in
    let small = abs_opposite a in
    record {
      valid = valid;
      exact = value ∙ ap (λ t. pos 0 -ℤ t) h.exact;
      below = omega (arith, small, h.below);
    }

zero-Exact : (n : ℕ) → Exact n (big_zero n) (pos 0) 1
zero-Exact n = record {
  valid = record { flag = omega arith; words = zeros-IsLimbs n };
  exact = ap pos (val-zeros n);
  below = omega arith;
}

one-Exact : (n : ℕ) → 1 < cap n → Exact n (big_one n) (pos 1) 1
one-Exact zero h = absurd (omega (arith, h))
one-Exact (suc n) h =
    let z = val-zeros n in
    record {
      valid = record { flag = omega arith; words = (omega arith, zeros-IsLimbs n) };
      exact = ap pos (omega (arith, z));
      below = omega arith;
    }

pick-Exact :
    (n : ℕ) (env : List BigInt) (bs : List ℕ) (i : ℕ)
    → Bounded n env bs
    → get_or bs i 1 < cap n
    → Exact n (pick n env i) (lookup integers (map to_ℤ env) i) (get_or bs i 1)
pick-Exact n [] [] i h fits = one-Exact n fits
pick-Exact n [] (b ∷ bs) i h fits = absurd h
pick-Exact n (x ∷ env) [] i h fits = absurd h
pick-Exact n (x ∷ env) (b ∷ bs) zero (valid, small, least, rest) fits = record {
  valid = valid;
  exact = refl;
  below = small;
}
pick-Exact n (x ∷ env) (b ∷ bs) (suc i) (valid, small, least, rest) fits =
    pick-Exact n env bs i rest fits

factor_fits : (a b c : ℕ) → 1 ≤ b → a * b < c → a < c
factor_fits a b c h g = grind arith

other_factor_fits : (a b c : ℕ) → 1 ≤ a → a * b < c → b < c
other_factor_fits a b c h g = grind arith

-- Where the bound of an expression is below the width, its computed value is exact, and so is every
-- step of it.
pub run-Exact :
    (n : ℕ) (e : Expr) (env : List BigInt) (bs : List ℕ)
    → Bounded n env bs
    → weight e bs < cap n
    → Exact n (run n e env) (value integers e (map to_ℤ env)) (weight e bs)
run-Exact n (var i) env bs h fits = pick-Exact n env bs i h fits
run-Exact n nil env bs h fits = zero-Exact n
run-Exact n unit env bs h fits = one-Exact n fits
run-Exact n (e ⊕ f) env bs h fits =
    add-Exact n (run n e env) (run n f env) (value integers e (map to_ℤ env))
      (value integers f (map to_ℤ env)) (weight e bs) (weight f bs)
      (run-Exact n e env bs h (omega (arith, fits))) (run-Exact n f env bs h (omega (arith, fits)))
      fits
run-Exact n (e ⊖ f) env bs h fits =
    sub-Exact n (run n e env) (run n f env) (value integers e (map to_ℤ env))
      (value integers f (map to_ℤ env)) (weight e bs) (weight f bs)
      (run-Exact n e env bs h (omega (arith, fits))) (run-Exact n f env bs h (omega (arith, fits)))
      fits
run-Exact n (e ⊗ f) env bs h fits =
    mul-Exact n (run n e env) (run n f env) (value integers e (map to_ℤ env))
      (value integers f (map to_ℤ env)) (weight e bs) (weight f bs)
      (run-Exact n e env bs h
        (factor_fits (weight e bs) (weight f bs) (cap n) (weight_positive n env bs f h) fits))
      (run-Exact n f env bs h
        (other_factor_fits (weight e bs) (weight f bs) (cap n) (weight_positive n env bs e h) fits))
      fits
run-Exact n (opposite e) env bs h fits =
    neg-Exact n (run n e env) (value integers e (map to_ℤ env)) (weight e bs)
      (run-Exact n e env bs h fits)
run-Exact n (squared e) env bs h fits =
    let part =
      run-Exact n e env bs h
        (factor_fits (weight e bs) (weight e bs) (cap n) (weight_positive n env bs e h) fits) in
    mul-Exact n (run n e env) (run n e env) (value integers e (map to_ℤ env))
      (value integers e (map to_ℤ env)) (weight e bs) (weight e bs) part part fits
