-- ===== src/Ring/Sound.antt =====
-- The normal form keeps the value of an expression, so equal normal forms prove an equation of the
-- ring.
use Prim.Native.Nat.{compare, Ordering}
use native.Mathlib.Nat.{zero-add, suc-add}
use sqisign_selkie.Prelude.{
  ℕ, zero, suc, ◌+◌, ◌*◌, ◌≡◌, refl, sym, ap, ap₂, ◌∙◌, arith, List, [], ◌∷◌, Bool, true, false,
  ◌&&◌, ◌==◌, ==_iff,
}
use sqisign_selkie.Ring.{CommRing}
use sqisign_selkie.Ring.Laws.{
  add_zero, add_left, add_pairs, mul_one, mul_pairs, add_mul, mul_zero, zero_mul, crossed, sub-add,
}
use sqisign_selkie.Ring.Polynomial.{
  Expr, var, nil, unit, ◌⊕◌, ◌⊖◌, ◌⊗◌, opposite, squared, Poly, compare_mono, mul_mono, place,
  insert, add_poly, mul_term, mul_poly, unit_mono, normal, left_side, right_side, same_mono, same,
}

compare-eq : (x y : ℕ) → compare x y ≡ Ordering.eq → x ≡ y
compare-eq x y h = ground arith

head_step : Ordering → Ordering → Ordering
head_step o rest = elim o [
  | Ordering.lt ↦ Ordering.lt
  | Ordering.eq ↦ rest
  | Ordering.gt ↦ Ordering.gt
]

head_step-eq :
    (o rest : Ordering) → head_step o rest ≡ Ordering.eq → (o ≡ Ordering.eq) × (rest ≡ Ordering.eq)
unfolding head_step
head_step-eq Ordering.lt rest h = cc
head_step-eq Ordering.eq rest h = (refl, h)
head_step-eq Ordering.gt rest h = cc

compare_mono-step :
    (x y : ℕ) (m k : List ℕ)
    → compare_mono (x ∷ m) (y ∷ k) ≡ head_step (compare x y) (compare_mono m k)
unfolding head_step
compare_mono-step x y m k = ground arith

compare_mono-eq : (m k : List ℕ) → compare_mono m k ≡ Ordering.eq → m ≡ k
compare_mono-eq [] [] h = refl
compare_mono-eq [] (y ∷ k) h = cc
compare_mono-eq (x ∷ m) [] h = cc
compare_mono-eq (x ∷ m) (y ∷ k) h =
    let (e, f) =
      head_step-eq (compare x y) (compare_mono m k) (sym (compare_mono-step x y m k) ∙ h) in
    ap₂ ◌∷◌ (compare-eq x y e) (compare_mono-eq m k f)

and_lem : (a b : Bool) → (a && b) ≡ true → (a ≡ true) × (b ≡ true)
and_lem true b h = (refl, h)
and_lem false b h = cc

same_mono-eq : (m k : List ℕ) → same_mono m k ≡ true → m ≡ k
same_mono-eq [] [] h = refl
same_mono-eq [] (y ∷ k) h = cc
same_mono-eq (x ∷ m) [] h = cc
same_mono-eq (x ∷ m) (y ∷ k) h =
    let (e, f) = and_lem (x == y) (same_mono m k) h in
    ap₂ ◌∷◌ ((==_iff x y).0 e) (same_mono-eq m k f)

same-eq : (p q : Poly) → same p q ≡ true → p ≡ q
same-eq [] [] h = refl
same-eq [] (t ∷ q) h = cc
same-eq (t ∷ p) [] h = cc
same-eq ((c, m) ∷ p) ((d, k) ∷ q) h =
    let (e, f) = and_lem (c == d) (same_mono m k && same p q) h in
    let (g, l) = and_lem (same_mono m k) (same p q) f in
    ap₂ ◌∷◌ (ap₂ (λ s t. (s, t)) ((==_iff c d).0 e) (same_mono-eq m k g)) (same-eq p q l)

module _ (r : CommRing) where
  open r use {
    Carrier, one, add, sub, neg, mul, square, add_assoc, add_comm, zero_add, add_neg, sub_lem,
    mul_assoc, mul_comm, one_mul, mul_add, square_lem,
  }

  abbrev pub lookup : List Carrier → ℕ → Carrier
  lookup [] i = one
  lookup (x ∷ env) zero = x
  lookup (x ∷ env) (suc i) = lookup env i

  abbrev pub value : Expr → List Carrier → Carrier
  value (var i) env = lookup env i
  value nil env = r.zero
  value unit env = one
  value (e ⊕ f) env = add (value e env) (value f env)
  value (e ⊖ f) env = sub (value e env) (value f env)
  value (e ⊗ f) env = mul (value e env) (value f env)
  value (opposite e) env = neg (value e env)
  value (squared e) env = square (value e env)

  abbrev power : Carrier → ℕ → Carrier
  power x zero = one
  power x (suc n) = mul x (power x n)

  abbrev times : ℕ → Carrier → Carrier
  times zero x = r.zero
  times (suc n) x = add x (times n x)

  abbrev mono_value : List ℕ → List Carrier → Carrier
  mono_value [] env = one
  mono_value (e ∷ m) [] = one
  mono_value (e ∷ m) (x ∷ env) = mul (power x e) (mono_value m env)

  abbrev poly_value : Poly → List Carrier → Carrier
  poly_value [] env = r.zero
  poly_value ((c, m) ∷ p) env = add (times c (mono_value m env)) (poly_value p env)

  power-add : (x : Carrier) (a b : ℕ) → power x (a + b) ≡ mul (power x a) (power x b)
  power-add x zero b = ap (power x) (zero-add b) ∙ sym (one_mul (power x b))
  power-add x (suc a) b =
      ap (power x) (suc-add a b)
      ∙ ap (mul x) (power-add x a b)
      ∙ sym (mul_assoc x (power x a) (power x b))

  times-add : (a b : ℕ) (x : Carrier) → times (a + b) x ≡ add (times a x) (times b x)
  times-add zero b x = ap (λ n. times n x) (zero-add b) ∙ sym (zero_add (times b x))
  times-add (suc a) b x =
      ap (λ n. times n x) (suc-add a b)
      ∙ ap (add x) (times-add a b x)
      ∙ sym (add_assoc x (times a x) (times b x))

  times-mul_right : (a : ℕ) (x y : Carrier) → times a (mul x y) ≡ mul x (times a y)
  times-mul_right zero x y = sym (mul_zero r x)
  times-mul_right (suc a) x y =
      ap (add (mul x y)) (times-mul_right a x y) ∙ sym (mul_add x y (times a y))

  times-mul : (a b : ℕ) (x y : Carrier) → times (a * b) (mul x y) ≡ mul (times a x) (times b y)
  times-mul zero b x y =
      let e : zero * b ≡ 0 = omega arith in
      ap (λ n. times n (mul x y)) e ∙ sym (zero_mul r (times b y))
  times-mul (suc a) b x y =
      let e : suc a * b ≡ b + a * b = omega arith in
      ap (λ n. times n (mul x y)) e
      ∙ times-add b (a * b) (mul x y)
      ∙ ap₂ add (times-mul_right b x y) (times-mul a b x y)
      ∙ sym (add_mul r x (times a x) (times b y))

  mono_value-unit : (i : ℕ) (env : List Carrier) → mono_value (unit_mono i) env ≡ lookup env i
  mono_value-unit zero [] = refl
  mono_value-unit (suc i) [] = refl
  mono_value-unit zero (x ∷ env) = mul_one r (mul x one) ∙ mul_one r x
  mono_value-unit (suc i) (x ∷ env) = one_mul (mono_value (unit_mono i) env) ∙ mono_value-unit i env

  mono_value-mul :
      (m k : List ℕ) (env : List Carrier)
      → mono_value (mul_mono m k) env ≡ mul (mono_value m env) (mono_value k env)
  mono_value-mul [] k env = sym (one_mul (mono_value k env))
  mono_value-mul (a ∷ m) [] env = sym (mul_one r (mono_value (a ∷ m) env))
  mono_value-mul (a ∷ m) (b ∷ k) [] = sym (one_mul one)
  mono_value-mul (a ∷ m) (b ∷ k) (x ∷ env) =
      ap₂ mul (power-add x a b) (mono_value-mul m k env)
      ∙ mul_pairs r (power x a) (power x b) (mono_value m env) (mono_value k env)

  insert-value :
      (c : ℕ) (m : List ℕ) (p : Poly) (env : List Carrier)
      → poly_value (insert c m p) env ≡ add (times c (mono_value m env)) (poly_value p env)
  insert-value c m [] env = refl
  insert-value c m ((d, k) ∷ p) env = placed (compare_mono m k) refl (insert-value c m p env)
    where
      placed :
          (o : Ordering)
          → compare_mono m k ≡ o
          → poly_value (insert c m p) env ≡ add (times c (mono_value m env)) (poly_value p env)
          → poly_value (place o c m d k p (insert c m p)) env
            ≡ add (times c (mono_value m env)) (poly_value ((d, k) ∷ p) env)
      placed Ordering.lt h ih = refl
      placed Ordering.eq h ih =
          ap (λ t. add t (poly_value p env))
            (times-add c d (mono_value k env)
              ∙ ap (λ j. add (times c (mono_value j env)) (times d (mono_value k env)))
                  (sym (compare_mono-eq m k h)))
          ∙ add_assoc (times c (mono_value m env)) (times d (mono_value k env)) (poly_value p env)
      placed Ordering.gt h ih =
          ap (add (times d (mono_value k env))) ih
          ∙ add_left r (times d (mono_value k env)) (times c (mono_value m env)) (poly_value p env)

  add_poly-value :
      (p q : Poly) (env : List Carrier)
      → poly_value (add_poly p q) env ≡ add (poly_value p env) (poly_value q env)
  add_poly-value [] q env = sym (zero_add (poly_value q env))
  add_poly-value ((c, m) ∷ p) q env =
      insert-value c m (add_poly p q) env
      ∙ ap (add (times c (mono_value m env))) (add_poly-value p q env)
      ∙ sym (add_assoc (times c (mono_value m env)) (poly_value p env) (poly_value q env))

  mul_term-value :
      (c : ℕ) (m : List ℕ) (p : Poly) (env : List Carrier)
      → poly_value (mul_term c m p) env ≡ mul (times c (mono_value m env)) (poly_value p env)
  mul_term-value c m [] env = sym (mul_zero r (times c (mono_value m env)))
  mul_term-value c m ((d, k) ∷ p) env =
      insert-value (c * d) (mul_mono m k) (mul_term c m p) env
      ∙ ap₂ add
          (ap (times (c * d)) (mono_value-mul m k env)
            ∙ times-mul c d (mono_value m env) (mono_value k env))
          (mul_term-value c m p env)
      ∙ sym (mul_add (times c (mono_value m env)) (times d (mono_value k env)) (poly_value p env))

  mul_poly-value :
      (p q : Poly) (env : List Carrier)
      → poly_value (mul_poly p q) env ≡ mul (poly_value p env) (poly_value q env)
  mul_poly-value [] q env = sym (zero_mul r (poly_value q env))
  mul_poly-value ((c, m) ∷ p) q env =
      add_poly-value (mul_term c m q) (mul_poly p q) env
      ∙ ap₂ add (mul_term-value c m q env) (mul_poly-value p q env)
      ∙ sym (add_mul r (times c (mono_value m env)) (poly_value p env) (poly_value q env))

  opposite_lem : (x p q : Carrier) → add x q ≡ p → add (neg x) p ≡ q
  opposite_lem x p q e =
      ap (add (neg x)) (sym e)
      ∙ sym (add_assoc (neg x) x q)
      ∙ ap (λ t. add t q) (add_comm (neg x) x ∙ add_neg x)
      ∙ zero_add q

  minus_lem :
      (x p q y s t : Carrier) → add x q ≡ p → add y t ≡ s → add (sub x y) (add q s) ≡ add p t
  minus_lem x p q y s t e f =
      ap (λ u. add (sub x y) (add q u)) (sym f)
      ∙ ap (add (sub x y)) (add_left r q y t)
      ∙ sym (add_assoc (sub x y) y (add q t))
      ∙ ap (λ u. add u (add q t)) (sub-add r x y)
      ∙ sym (add_assoc x q t)
      ∙ ap (λ u. add u t) e

  product_lem :
      (x p q y s t : Carrier)
      → add x q ≡ p
      → add y t ≡ s
      → add (mul x y) (add (mul p t) (mul q s)) ≡ add (mul p s) (mul q t)
  product_lem x p q y s t e f =
      ap₂ (λ u v. add (mul x y) (add (mul u t) (mul q v))) (sym e) (sym f)
      ∙ ap₂ (λ u v. add (mul x y) (add u v)) (add_mul r x q t) (mul_add q y t)
      ∙ ap (add (mul x y)) (add_pairs r (mul x t) (mul q t) (mul q y) (mul q t))
      ∙ sym (add_assoc (mul x y) (add (mul x t) (mul q y)) (add (mul q t) (mul q t)))
      ∙ ap (λ u. add u (add (mul q t) (mul q t))) (sym (add_assoc (mul x y) (mul x t) (mul q y)))
      ∙ add_assoc (add (mul x y) (mul x t)) (mul q y) (add (mul q t) (mul q t))
      ∙ ap (add (add (mul x y) (mul x t))) (sym (add_assoc (mul q y) (mul q t) (mul q t)))
      ∙ sym (add_assoc (add (mul x y) (mul x t)) (add (mul q y) (mul q t)) (mul q t))
      ∙ ap (λ u. add u (mul q t))
          (ap₂ add (sym (mul_add x y t)) (sym (mul_add q y t)) ∙ sym (add_mul r x q (add y t)))
      ∙ ap₂ (λ u v. add (mul u v) (mul q t)) e f

  product-value :
      (e f : Expr) (env : List Carrier)
      → add (value e env) (poly_value (normal e).1 env) ≡ poly_value (normal e).0 env
      → add (value f env) (poly_value (normal f).1 env) ≡ poly_value (normal f).0 env
      → add (mul (value e env) (value f env)) (poly_value (normal (e ⊗ f)).1 env)
        ≡ poly_value (normal (e ⊗ f)).0 env
  product-value e f env h g =
      ap (add (mul (value e env) (value f env))) (
        add_poly-value (mul_poly (normal e).0 (normal f).1) (mul_poly (normal e).1 (normal f).0) env
        ∙ ap₂ add (mul_poly-value (normal e).0 (normal f).1 env)
            (mul_poly-value (normal e).1 (normal f).0 env))
      ∙ product_lem (value e env) (poly_value (normal e).0 env) (poly_value (normal e).1 env)
          (value f env) (poly_value (normal f).0 env) (poly_value (normal f).1 env) h g
      ∙ sym (
          add_poly-value (mul_poly (normal e).0 (normal f).0) (mul_poly (normal e).1 (normal f).1)
            env
          ∙ ap₂ add (mul_poly-value (normal e).0 (normal f).0 env)
              (mul_poly-value (normal e).1 (normal f).1 env))

  -- The value of an expression and what it takes away are what it adds.
  normal-value :
      (e : Expr) (env : List Carrier)
      → add (value e env) (poly_value (normal e).1 env) ≡ poly_value (normal e).0 env
  normal-value (var i) env =
      ap (λ u. add u r.zero)
        (sym (mono_value-unit i env) ∙ sym (add_zero r (mono_value (unit_mono i) env)))
  normal-value nil env = zero_add r.zero
  normal-value unit env = ap (λ u. add u r.zero) (sym (add_zero r one))
  normal-value (e ⊕ f) env =
      ap (add (add (value e env) (value f env))) (add_poly-value (normal e).1 (normal f).1 env)
      ∙ add_pairs r (value e env) (value f env) (poly_value (normal e).1 env)
          (poly_value (normal f).1 env)
      ∙ ap₂ add (normal-value e env) (normal-value f env)
      ∙ sym (add_poly-value (normal e).0 (normal f).0 env)
  normal-value (e ⊖ f) env =
      ap (add (sub (value e env) (value f env))) (add_poly-value (normal e).1 (normal f).0 env)
      ∙ minus_lem (value e env) (poly_value (normal e).0 env) (poly_value (normal e).1 env)
          (value f env) (poly_value (normal f).0 env) (poly_value (normal f).1 env)
          (normal-value e env) (normal-value f env)
      ∙ sym (add_poly-value (normal e).0 (normal f).1 env)
  normal-value (e ⊗ f) env = product-value e f env (normal-value e env) (normal-value f env)
  normal-value (opposite e) env =
      opposite_lem (value e env) (poly_value (normal e).0 env) (poly_value (normal e).1 env)
        (normal-value e env)
  normal-value (squared e) env =
      ap (λ u. add u (poly_value (normal (squared e)).1 env)) (square_lem (value e env))
      ∙ product-value e e env (normal-value e env) (normal-value e env)

  -- Expressions with one normal form have one value.
  pub solve :
      (e f : Expr) (env : List Carrier)
      → same (left_side e f) (right_side e f) ≡ true
      → value e env ≡ value f env
  solve e f env h =
      crossed r (value e env) (poly_value (normal e).0 env) (poly_value (normal e).1 env)
        (value f env) (poly_value (normal f).0 env) (poly_value (normal f).1 env)
        (normal-value e env) (normal-value f env)
        (sym (add_poly-value (normal e).0 (normal f).1 env)
          ∙ ap (λ p. poly_value p env) (same-eq (left_side e f) (right_side e f) h)
          ∙ add_poly-value (normal f).0 (normal e).1 env)
