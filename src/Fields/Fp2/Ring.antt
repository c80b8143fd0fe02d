-- ===== src/Fields/Fp2/Ring.antt =====
-- The products of the extension on the coordinates, and the laws of a ring from those of the prime
-- field.
use sqisign_selkie.Prelude.{◌≡◌, refl, sym, ap, ap₂, ◌∙◌, [], ◌∷◌}
use sqisign_selkie.Ring.Polynomial.{var, unit, nil, ◌⊕◌, ◌⊖◌, ◌⊗◌}
use sqisign_selkie.Ring.Sound.{solve}
use sqisign_selkie.Fields.Fp.{Fp}
use sqisign_selkie.Fields.Fp2.{Fp2, new, zero, one, add, sub, neg, mul, square}

module _ (f : Fp) where
  open f.field.ring use {
    Carrier, zero as fp_zero, one as fp_one, add as fp_add, sub as fp_sub, neg as fp_neg,
    mul as fp_mul, square as fp_square,
  }

  pub ext : (x y : Fp2 f) → x.a ≡ y.a → x.b ≡ y.b → x ≡ y
  ext x y e h = ap₂ (new f) e h

  pub add_assoc : (x y z : Fp2 f) → add f (add f x y) z ≡ add f x (add f y z)
  unfolding add
  add_assoc x y z =
      ap₂ (new f) (f.field.ring.add_assoc x.a y.a z.a) (f.field.ring.add_assoc x.b y.b z.b)

  pub add_comm : (x y : Fp2 f) → add f x y ≡ add f y x
  unfolding add
  add_comm x y = ap₂ (new f) (f.field.ring.add_comm x.a y.a) (f.field.ring.add_comm x.b y.b)

  pub zero_add : (x : Fp2 f) → add f (zero f) x ≡ x
  unfolding add
  zero_add x = ap₂ (new f) (f.field.ring.zero_add x.a) (f.field.ring.zero_add x.b)

  pub add_neg : (x : Fp2 f) → add f x (neg f x) ≡ zero f
  unfolding add neg
  add_neg x = ap₂ (new f) (f.field.ring.add_neg x.a) (f.field.ring.add_neg x.b)

  pub sub_lem : (x y : Fp2 f) → sub f x y ≡ add f x (neg f y)
  unfolding add neg sub
  sub_lem x y = ap₂ (new f) (f.field.ring.sub_lem x.a y.a) (f.field.ring.sub_lem x.b y.b)

  pub re-mul : (x y : Fp2 f) → (mul f x y).a ≡ fp_sub (fp_mul x.a y.a) (fp_mul x.b y.b)
  unfolding mul
  re-mul x y = f.difference_of_2_products_lem x.a y.a x.b y.b

  pub im-mul : (x y : Fp2 f) → (mul f x y).b ≡ fp_add (fp_mul x.a y.b) (fp_mul x.b y.a)
  unfolding mul
  im-mul x y = f.sum_of_2_products_lem x.a y.b x.b y.a

  -- A product of a product, on the left and on the right.
  re-mul_left :
      (x y z : Fp2 f)
      → (mul f (mul f x y) z).a
        ≡ fp_sub
            (fp_mul (fp_sub (fp_mul x.a y.a) (fp_mul x.b y.b)) z.a)
            (fp_mul (fp_add (fp_mul x.a y.b) (fp_mul x.b y.a)) z.b)
  re-mul_left x y z =
      re-mul (mul f x y) z
      ∙ ap₂ (λ s t. fp_sub (fp_mul s z.a) (fp_mul t z.b)) (re-mul x y) (im-mul x y)

  im-mul_left :
      (x y z : Fp2 f)
      → (mul f (mul f x y) z).b
        ≡ fp_add
            (fp_mul (fp_sub (fp_mul x.a y.a) (fp_mul x.b y.b)) z.b)
            (fp_mul (fp_add (fp_mul x.a y.b) (fp_mul x.b y.a)) z.a)
  im-mul_left x y z =
      im-mul (mul f x y) z
      ∙ ap₂ (λ s t. fp_add (fp_mul s z.b) (fp_mul t z.a)) (re-mul x y) (im-mul x y)

  pub mul_comm : (x y : Fp2 f) → mul f x y ≡ mul f y x
  mul_comm x y =
      let x0 = var 0 in
      let x1 = var 1 in
      let y0 = var 2 in
      let y1 = var 3 in
      let env = x.a ∷ x.b ∷ y.a ∷ y.b ∷ [] in
      ext (mul f x y) (mul f y x)
        (re-mul x y
          ∙ solve f.field.ring (x0 ⊗ y0 ⊖ x1 ⊗ y1) (y0 ⊗ x0 ⊖ y1 ⊗ x1) env refl
          ∙ sym (re-mul y x))
        (im-mul x y
          ∙ solve f.field.ring (x0 ⊗ y1 ⊕ x1 ⊗ y0) (y0 ⊗ x1 ⊕ y1 ⊗ x0) env refl
          ∙ sym (im-mul y x))

  pub mul_assoc : (x y z : Fp2 f) → mul f (mul f x y) z ≡ mul f x (mul f y z)
  mul_assoc x y z =
      let x0 = var 0 in
      let x1 = var 1 in
      let y0 = var 2 in
      let y1 = var 3 in
      let z0 = var 4 in
      let z1 = var 5 in
      let env = x.a ∷ x.b ∷ y.a ∷ y.b ∷ z.a ∷ z.b ∷ [] in
      ext (mul f (mul f x y) z) (mul f x (mul f y z))
        (re-mul_left x y z
          ∙ solve f.field.ring ((x0 ⊗ y0 ⊖ x1 ⊗ y1) ⊗ z0 ⊖ (x0 ⊗ y1 ⊕ x1 ⊗ y0) ⊗ z1)
              ((y0 ⊗ z0 ⊖ y1 ⊗ z1) ⊗ x0 ⊖ (y0 ⊗ z1 ⊕ y1 ⊗ z0) ⊗ x1) env refl
          ∙ sym (re-mul_left y z x)
          ∙ ap (λ t. t.a) (mul_comm (mul f y z) x))
        (im-mul_left x y z
          ∙ solve f.field.ring ((x0 ⊗ y0 ⊖ x1 ⊗ y1) ⊗ z1 ⊕ (x0 ⊗ y1 ⊕ x1 ⊗ y0) ⊗ z0)
              ((y0 ⊗ z0 ⊖ y1 ⊗ z1) ⊗ x1 ⊕ (y0 ⊗ z1 ⊕ y1 ⊗ z0) ⊗ x0) env refl
          ∙ sym (im-mul_left y z x)
          ∙ ap (λ t. t.b) (mul_comm (mul f y z) x))

  pub one_mul : (x : Fp2 f) → mul f (one f) x ≡ x
  one_mul x =
      let x0 = var 0 in
      let x1 = var 1 in
      let env = x.a ∷ x.b ∷ [] in
      ext (mul f (one f) x) x
        (re-mul (one f) x ∙ solve f.field.ring (unit ⊗ x0 ⊖ nil ⊗ x1) x0 env refl)
        (im-mul (one f) x ∙ solve f.field.ring (unit ⊗ x1 ⊕ nil ⊗ x0) x1 env refl)

  pub mul_add : (x y z : Fp2 f) → mul f x (add f y z) ≡ add f (mul f x y) (mul f x z)
  unfolding add
  mul_add x y z =
      let x0 = var 0 in
      let x1 = var 1 in
      let y0 = var 2 in
      let y1 = var 3 in
      let z0 = var 4 in
      let z1 = var 5 in
      let env = x.a ∷ x.b ∷ y.a ∷ y.b ∷ z.a ∷ z.b ∷ [] in
      ext (mul f x (add f y z)) (add f (mul f x y) (mul f x z))
        (re-mul x (add f y z)
          ∙ solve f.field.ring (x0 ⊗ (y0 ⊕ z0) ⊖ x1 ⊗ (y1 ⊕ z1))
              ((x0 ⊗ y0 ⊖ x1 ⊗ y1) ⊕ (x0 ⊗ z0 ⊖ x1 ⊗ z1)) env refl
          ∙ sym (ap₂ fp_add (re-mul x y) (re-mul x z)))
        (im-mul x (add f y z)
          ∙ solve f.field.ring (x0 ⊗ (y1 ⊕ z1) ⊕ x1 ⊗ (y0 ⊕ z0))
              ((x0 ⊗ y1 ⊕ x1 ⊗ y0) ⊕ (x0 ⊗ z1 ⊕ x1 ⊗ z0)) env refl
          ∙ sym (ap₂ fp_add (im-mul x y) (im-mul x z)))

  -- The square by one product for each coordinate is the product with itself.
  pub square_lem : (x : Fp2 f) → square f x ≡ mul f x x
  unfolding square
  square_lem x =
      let x0 = var 0 in
      let x1 = var 1 in
      let env = x.a ∷ x.b ∷ [] in
      ext (square f x) (mul f x x)
        (solve f.field.ring ((x0 ⊕ x1) ⊗ (x0 ⊖ x1)) (x0 ⊗ x0 ⊖ x1 ⊗ x1) env refl ∙ sym (re-mul x x))
        (solve f.field.ring (x0 ⊗ x1 ⊕ x0 ⊗ x1) (x0 ⊗ x1 ⊕ x1 ⊗ x0) env refl ∙ sym (im-mul x x))
