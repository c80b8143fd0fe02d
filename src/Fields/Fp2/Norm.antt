-- ===== src/Fields/Fp2/Norm.antt =====
-- The norm and the inverse of the extension, which is a field: `fp2_field` fills the interface that
-- the curves take.
use sqisign_selkie.Prelude.{
  ◌≡◌, ◌≢◌, ◌↔◌, refl, sym, ap, ap₂, ◌∙◌, [], ◌∷◌, ℕ, suc, true, inl, inr, Bool-cases, ◌&&◌,
}
use sqisign_selkie.Ring.{CommRing}
use sqisign_selkie.Ring.Polynomial.{var, unit, nil, ◌⊕◌, ◌⊖◌, ◌⊗◌, opposite, squared}
use sqisign_selkie.Ring.Sound.{solve}
use sqisign_selkie.Fields.{Field}
use sqisign_selkie.Fields.Laws.{eq_cases, no_zero_divisors}
use sqisign_selkie.Fields.Fp.{Fp}
use sqisign_selkie.Fields.Fp2.{
  Fp2, new, zero, one, i, add, sub, neg, mul, square, norm, conjugate, invert, ct_eq, from_fp,
  minus_one,
}
use sqisign_selkie.Fields.Fp2.Ring.{
  ext, add_assoc, add_comm, zero_add, add_neg, sub_lem, re-mul, im-mul, mul_comm, mul_assoc,
  one_mul, mul_add, square_lem,
}

module _ (f : Fp) where
  open f.field use {invert as fp_invert, ct_eq as fp_ct_eq}
  open f.field.ring use {
    Carrier, zero as fp_zero, one as fp_one, add as fp_add, sub as fp_sub, neg as fp_neg,
    mul as fp_mul, square as fp_square,
  }

  -- The element i is a root of minus one.
  pub square-i : square f (i f) ≡ minus_one f
  unfolding square
  square-i =
      ext f (square f (i f)) (minus_one f)
        (solve f.field.ring ((nil ⊕ unit) ⊗ (nil ⊖ unit)) (opposite unit) [] refl
          ∙ sym f.minus_one_lem)
        (solve f.field.ring (nil ⊗ unit ⊕ nil ⊗ unit) nil [] refl)

  -- The norm of a product is the product of the norms.
  pub norm-mul : (x y : Fp2 f) → norm f (mul f x y) ≡ fp_mul (norm f x) (norm f y)
  unfolding norm
  norm-mul x y =
      let x0 = var 0 in
      let x1 = var 1 in
      let y0 = var 2 in
      let y1 = var 3 in
      ap₂ (λ s t. fp_add (fp_square s) (fp_square t)) (re-mul f x y) (im-mul f x y)
      ∙ solve f.field.ring (squared (x0 ⊗ y0 ⊖ x1 ⊗ y1) ⊕ squared (x0 ⊗ y1 ⊕ x1 ⊗ y0))
          ((squared x0 ⊕ squared x1) ⊗ (squared y0 ⊕ squared y1)) (x.a ∷ x.b ∷ y.a ∷ y.b ∷ []) refl

  -- An element times its conjugate is its norm.
  pub mul-conjugate : (x : Fp2 f) → mul f x (conjugate f x) ≡ from_fp f (norm f x)
  unfolding norm conjugate
  mul-conjugate x =
      let x0 = var 0 in
      let x1 = var 1 in
      let env = x.a ∷ x.b ∷ [] in
      ext f (mul f x (conjugate f x)) (from_fp f (norm f x))
        (re-mul f x (conjugate f x)
          ∙ solve f.field.ring (x0 ⊗ x0 ⊖ x1 ⊗ opposite x1) (squared x0 ⊕ squared x1) env refl)
        (im-mul f x (conjugate f x) ∙ solve f.field.ring (x0 ⊗ opposite x1 ⊕ x1 ⊗ x0) nil env refl)

  quotient-square :
      (a b j : Carrier)
      → fp_add (fp_square a) (fp_square b) ≡ fp_zero
      → fp_mul b j ≡ fp_one
      → fp_square (fp_mul a j) ≡ f.minus_one
  quotient-square a b j h e =
      solve f.field.ring (squared (var 0 ⊗ var 2))
        ((squared (var 0) ⊕ squared (var 1)) ⊗ squared (var 2) ⊖ squared (var 1 ⊗ var 2))
        (a ∷ b ∷ j ∷ []) refl
      ∙ ap₂ (λ s t. fp_sub (fp_mul s (fp_square j)) (fp_square t)) h e
      ∙ solve f.field.ring (nil ⊗ squared (var 0) ⊖ squared unit) (opposite unit) (j ∷ []) refl
      ∙ sym f.minus_one_lem

  -- Only zero has the norm zero.
  pub norm-zero : (x : Fp2 f) → norm f x ≡ fp_zero → x ≡ zero f
  unfolding norm
  norm-zero x h = elim (eq_cases f.field x.b fp_zero) [
    | inr ne ↦
        elim (f.no_root (fp_mul x.a (fp_invert x.b))
          (quotient-square x.a x.b (fp_invert x.b) h (f.field.invert_lem x.b ne))) [ ]
    | inl e ↦ elim (eq_cases f.field x.a fp_zero) [
      | inl d ↦ ext f x (zero f) d e
      | inr ne ↦
          ext f x (zero f)
            (no_zero_divisors f.field x.a x.a ne (
              solve f.field.ring (var 0 ⊗ var 0) (squared (var 0) ⊕ squared nil) (x.a ∷ []) refl
              ∙ ap (λ t. fp_add (fp_square x.a) (fp_square t)) (sym e)
              ∙ h))
            e
    ]
  ]

  -- An element other than zero times its inverse is one.
  pub mul-invert : (x : Fp2 f) → x ≢ zero f → mul f x (invert f x) ≡ one f
  unfolding invert norm
  mul-invert x h =
      let x0 = var 0 in
      let x1 = var 1 in
      let n = fp_invert (norm f x) in
      let env = x.a ∷ x.b ∷ n ∷ [] in
      ext f (mul f x (invert f x)) (one f)
        (re-mul f x (invert f x)
          ∙ solve f.field.ring (x0 ⊗ (x0 ⊗ var 2) ⊖ x1 ⊗ (opposite x1 ⊗ var 2))
              ((squared x0 ⊕ squared x1) ⊗ var 2) env refl
          ∙ f.field.invert_lem (norm f x) (λ e. h (norm-zero x e)))
        (im-mul f x (invert f x)
          ∙ solve f.field.ring (x0 ⊗ (opposite x1 ⊗ var 2) ⊕ x1 ⊗ (x0 ⊗ var 2)) nil env refl)

  pub ct_eq_iff : (x y : Fp2 f) → (ct_eq f x y ≡ true) ↔ (x ≡ y)
  unfolding ct_eq
  ct_eq_iff x y = (left, right)
    where
      left : ct_eq f x y ≡ true → x ≡ y
      left h = elim (Bool-cases (fp_ct_eq x.a y.a)) [
        | inl e ↦
            ext f x y ((f.field.ct_eq_iff x.a y.a).0 e)
              ((f.field.ct_eq_iff x.b y.b).0 (ap (λ t. t && fp_ct_eq x.b y.b) (sym e) ∙ h))
        | inr e ↦ cc
      ]

      right : x ≡ y → ct_eq f x y ≡ true
      right e =
          ap₂ ◌&&◌ ((f.field.ct_eq_iff x.a y.a).1 (ap (λ t. t.a) e))
            ((f.field.ct_eq_iff x.b y.b).1 (ap (λ t. t.b) e))

  abbrev pub fp2_ring : CommRing
  fp2_ring = record {
    Carrier = Fp2 f;
    zero = zero f;
    one = one f;
    add = add f;
    sub = sub f;
    neg = neg f;
    mul = mul f;
    square = square f;
    add_assoc = add_assoc f;
    add_comm = add_comm f;
    zero_add = zero_add f;
    add_neg = add_neg f;
    sub_lem = sub_lem f;
    mul_assoc = mul_assoc f;
    mul_comm = mul_comm f;
    one_mul = one_mul f;
    mul_add = mul_add f;
    square_lem = square_lem f;
  }

  abbrev pub from_small : ℕ → Fp2 f
  from_small n = from_fp f (f.field.from_small n)

  pub from_small-suc : (n : ℕ) → from_small (suc n) ≡ add f (from_small n) (one f)
  unfolding add
  from_small-suc n = ap₂ (new f) (f.field.from_small_suc n) (sym (f.field.ring.zero_add fp_zero))

  abbrev pub fp2_field : Field
  fp2_field = record {
    ring = fp2_ring;
    invert = invert f;
    ct_eq = ct_eq f;
    from_small = from_small;
    one_ne_zero = λ e. f.field.one_ne_zero (ap (λ t. t.a) e);
    invert_lem = mul-invert;
    ct_eq_iff = ct_eq_iff;
    from_small_zero = ap (from_fp f) f.field.from_small_zero;
    from_small_suc = from_small-suc;
  }
