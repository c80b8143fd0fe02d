-- ===== src/Fields/Fp2/Root.antt =====
-- The square root of the extension: when it is a root, the sign that it chooses, and where the formula
-- breaks down.
use sqisign_selkie.Prelude.{
  ◌≡◌, ◌≢◌, ◌⊎◌, refl, sym, ap, ap₂, ◌∙◌, [], ◌∷◌, Bool, true, false, not, inl, inr, Bool-cases,
  ◌&&◌, ◌||◌,
}
use sqisign_selkie.Ring.Laws.{zero_mul, mul_one}
use sqisign_selkie.Ring.Polynomial.{var, unit, nil, ◌⊕◌, ◌⊖◌, ◌⊗◌, opposite, squared}
use sqisign_selkie.Ring.Sound.{solve}
use sqisign_selkie.Fields.Laws.{eq_cases, cancel, ct_eq_refl, ct_eq-ne, mul-ne_zero}
use sqisign_selkie.Fields.Fp.{Fp, lowest_bit}
use sqisign_selkie.Fields.Fp2.{
  Fp2, new, zero, neg, square, norm, ct_eq, is_square, sqrt_root, root_is_odd, sqrt,
}
use sqisign_selkie.Fields.Fp2.Ring.{ext}
use sqisign_selkie.Fields.Fp2.Norm.{ct_eq_iff}

module _ (f : Fp) where
  open f.field use {ct_eq as fp_ct_eq}
  open f.field.ring use {
    Carrier, zero as fp_zero, one as fp_one, add as fp_add, sub as fp_sub, neg as fp_neg,
    mul as fp_mul, square as fp_square, add_neg,
  }

  -- Opposite elements have one square.
  square-neg : (x : Fp2 f) → square f (neg f x) ≡ square f x
  unfolding square neg
  square-neg x =
      let x0 = var 0 in
      let x1 = var 1 in
      let env = x.a ∷ x.b ∷ [] in
      ap₂ (new f)
        (solve f.field.ring ((opposite x0 ⊕ opposite x1) ⊗ (opposite x0 ⊖ opposite x1))
          ((x0 ⊕ x1) ⊗ (x0 ⊖ x1)) env refl)
        (solve f.field.ring (opposite x0 ⊗ opposite x1 ⊕ opposite x0 ⊗ opposite x1)
          (x0 ⊗ x1 ⊕ x0 ⊗ x1) env refl)

  select_cases :
      (x y : Fp2 f) (c : Bool)
      → let z = new f (f.conditional_select x.a y.a c) (f.conditional_select x.b y.b c) in
        ((c ≡ false) × (z ≡ x)) ⊎ ((c ≡ true) × (z ≡ y))
  select_cases x y false =
      inl (
        refl,
        ap₂ (new f) (f.conditional_select_false x.a y.a) (f.conditional_select_false x.b y.b),
      )
  select_cases x y true =
      inr
        (refl, ap₂ (new f) (f.conditional_select_true x.a y.a) (f.conditional_select_true x.b y.b))

  -- The root before its sign is chosen, or its opposite.
  sqrt_cases :
      (x : Fp2 f)
      → ((root_is_odd f (sqrt_root f x) ≡ false) × (sqrt f x ≡ sqrt_root f x))
        ⊎ ((root_is_odd f (sqrt_root f x) ≡ true) × (sqrt f x ≡ neg f (sqrt_root f x)))
  unfolding sqrt neg
  sqrt_cases x =
      select_cases (sqrt_root f x) (neg f (sqrt_root f x)) (root_is_odd f (sqrt_root f x))

  square-sqrt_root : (x : Fp2 f) → square f (sqrt f x) ≡ square f (sqrt_root f x)
  square-sqrt_root x = elim (sqrt_cases x) [
    | inl (h, e) ↦ ap (square f) e
    | inr (h, e) ↦ ap (square f) e ∙ square-neg (sqrt_root f x)
  ]

  double_ne_zero : (x : Carrier) → x ≢ fp_zero → fp_add x x ≢ fp_zero
  double_ne_zero x h e =
      mul-ne_zero f.field (fp_add fp_one fp_one) x f.two_ne_zero h
        (solve f.field.ring ((unit ⊕ unit) ⊗ var 0) (var 0 ⊕ var 0) (x ∷ []) refl ∙ e)

  -- A square of two coordinates, one of which is the root of the norm and the other one: with
  -- t = (a + d) + (a + d) it is t·y² times a + b·i.
  module _ (a b d y : Carrier) (h : fp_square d ≡ fp_add (fp_square a) (fp_square b)) where
    abbrev twice : Carrier
    twice = fp_add (fp_add a d) (fp_add a d)

    abbrev re_part : Carrier
    re_part = fp_mul (fp_add a d) y

    abbrev im_part : Carrier
    im_part = fp_mul b y

    rest_zero :
        (s : Carrier)
        → fp_add s
            (fp_mul (fp_sub (fp_square d) (fp_add (fp_square a) (fp_square b))) (fp_square y))
          ≡ s
    rest_zero s =
        ap (λ t. fp_add s (fp_mul (fp_sub t (fp_add (fp_square a) (fp_square b))) (fp_square y))) h
        ∙ solve f.field.ring (var 0 ⊕ (var 1 ⊖ var 1) ⊗ squared (var 2)) (var 0)
            (s ∷ fp_add (fp_square a) (fp_square b) ∷ y ∷ []) refl

    square-root : fp_mul twice (fp_square y) ≡ fp_one → square f (new f re_part im_part) ≡ new f a b
    unfolding square
    square-root e =
        let u = var 0 in
        let v = var 1 in
        let w = var 2 in
        let z = var 3 in
        let t = (u ⊕ w) ⊕ (u ⊕ w) in
        let env = a ∷ b ∷ d ∷ y ∷ [] in
        ap₂ (new f)
          (solve f.field.ring (((u ⊕ w) ⊗ z ⊕ v ⊗ z) ⊗ ((u ⊕ w) ⊗ z ⊖ v ⊗ z))
              (u ⊗ (t ⊗ squared z) ⊕ (squared w ⊖ (squared u ⊕ squared v)) ⊗ squared z) env refl
            ∙ rest_zero (fp_mul a (fp_mul twice (fp_square y)))
            ∙ ap (fp_mul a) e
            ∙ mul_one f.field.ring a)
          (solve f.field.ring ((u ⊕ w) ⊗ z ⊗ (v ⊗ z) ⊕ (u ⊕ w) ⊗ z ⊗ (v ⊗ z)) (v ⊗ (t ⊗ squared z))
              env refl
            ∙ ap (fp_mul b) e
            ∙ mul_one f.field.ring b)

    square-turned_root :
        fp_mul twice (fp_square y) ≡ f.minus_one
        → square f (new f im_part (fp_neg re_part)) ≡ new f a b
    unfolding square
    square-turned_root e =
        let u = var 0 in
        let v = var 1 in
        let w = var 2 in
        let z = var 3 in
        let t = (u ⊕ w) ⊕ (u ⊕ w) in
        let env = a ∷ b ∷ d ∷ y ∷ [] in
        let signed : (s : Carrier) → fp_neg (fp_mul s (fp_mul twice (fp_square y))) ≡ s = λ s.
          ap (λ r. fp_neg (fp_mul s r)) (e ∙ f.minus_one_lem)
          ∙ solve f.field.ring (opposite (var 0 ⊗ opposite unit)) (var 0) (s ∷ []) refl in
        ap₂ (new f)
          (solve f.field.ring ((v ⊗ z ⊕ opposite ((u ⊕ w) ⊗ z)) ⊗ (v ⊗ z ⊖ opposite ((u ⊕ w) ⊗ z)))
              (opposite (u ⊗ (t ⊗ squared z) ⊕ (squared w ⊖ (squared u ⊕ squared v)) ⊗ squared z))
              env refl
            ∙ ap fp_neg (rest_zero (fp_mul a (fp_mul twice (fp_square y))))
            ∙ signed a)
          (solve f.field.ring (v ⊗ z ⊗ opposite ((u ⊕ w) ⊗ z) ⊕ v ⊗ z ⊗ opposite ((u ⊕ w) ⊗ z))
              (opposite (v ⊗ (t ⊗ squared z))) env refl
            ∙ signed b)

    test_lem : fp_square (fp_add re_part re_part) ≡ fp_mul twice (fp_mul twice (fp_square y))
    test_lem =
        let u = var 0 in
        let w = var 1 in
        let z = var 2 in
        let t = (u ⊕ w) ⊕ (u ⊕ w) in
        solve f.field.ring (squared ((u ⊕ w) ⊗ z ⊕ (u ⊕ w) ⊗ z)) (t ⊗ (t ⊗ squared z))
          (a ∷ d ∷ y ∷ []) refl

    -- The coordinates that the test of the source chooses are those of a root.
    chosen_root :
        (fp_mul twice (fp_square y) ≡ fp_one) ⊎ (fp_mul twice (fp_square y) ≡ f.minus_one)
        → twice ≢ fp_zero
        → let c = fp_ct_eq (fp_square (fp_add re_part re_part)) twice in
          square f (
            new f
              (f.conditional_select im_part re_part c)
              (f.conditional_select (fp_neg re_part) im_part c))
          ≡ new f a b
    chosen_root p ne =
        elim (select_cases (new f im_part (fp_neg re_part)) (new f re_part im_part) c) [
          | inl (g, e) ↦ elim p [
            | inl one ↦
                let same = ct_eq_refl f.field twice in
                let met = test_lem ∙ ap (fp_mul twice) one ∙ mul_one f.field.ring twice in
                let found = ap (λ t. fp_ct_eq t twice) met ∙ same in cc
            | inr minus ↦ ap (square f) e ∙ square-turned_root minus
          ]
          | inr (g, e) ↦
              ap (square f) e
              ∙ square-root (
                  cancel f.field twice (fp_mul twice (fp_square y)) fp_one ne (
                    sym test_lem
                    ∙ (f.field.ct_eq_iff (fp_square (fp_add re_part re_part)) twice).0 g
                    ∙ sym (mul_one f.field.ring twice)))
        ]
      where
        c : Bool
        c = fp_ct_eq (fp_square (fp_add re_part re_part)) twice

  is_square-norm : (x : Fp2 f) → is_square f x ≡ true → f.is_square (norm f x) ≡ true
  unfolding is_square norm
  is_square-norm x h = elim (Bool-cases (f.is_square (norm f x))) [
    | inl e ↦ e
    | inr e ↦
        let is_zero = ap (λ t. t || ct_eq f x (zero f)) (sym e) ∙ h in
        (f.is_square_iff (norm f x)).1 (
          fp_zero,
          solve f.field.ring (squared nil) (squared nil ⊕ squared nil) [] refl
              ∙ ap (norm f) (sym ((ct_eq_iff f x (zero f)).0 is_zero)),
        )
  ]

  -- The square root of a square is a root, unless the sum of its real part and the root of its norm
  -- is zero.
  pub square-sqrt :
      (x : Fp2 f)
      → is_square f x ≡ true
      → fp_add x.a (f.sqrt (norm f x)) ≢ fp_zero
      → square f (sqrt f x) ≡ x
  unfolding sqrt_root norm
  square-sqrt x h ne =
      let d = f.sqrt (norm f x) in
      let t0 = double_ne_zero (fp_add x.a d) ne in
      square-sqrt_root x
      ∙ chosen_root x.a x.b d (f.pow_p3div4 (fp_add (fp_add x.a d) (fp_add x.a d)))
          (f.sqrt_lem (norm f x) (is_square-norm x h))
          (f.pow_p3div4_lem (fp_add (fp_add x.a d) (fp_add x.a d)) t0) t0

  -- The test of the sign of a root on the cases of its real part.
  odd_of_zero : (r : Fp2 f) → r.a ≡ fp_zero → root_is_odd f r ≡ lowest_bit (f.to_bytes r.b)
  unfolding root_is_odd
  odd_of_zero r e =
      ap₂ (λ s t. s || (t && lowest_bit (f.to_bytes r.b)))
        (ap (λ t. lowest_bit (f.to_bytes t)) e ∙ f.lowest_bit_zero)
        (ap (λ t. fp_ct_eq t fp_zero) e ∙ ct_eq_refl f.field fp_zero)

  odd_of_nonzero : (r : Fp2 f) → r.a ≢ fp_zero → root_is_odd f r ≡ lowest_bit (f.to_bytes r.a)
  unfolding root_is_odd
  odd_of_nonzero r ne =
      ap (λ t. lowest_bit (f.to_bytes r.a) || (t && lowest_bit (f.to_bytes r.b)))
        (ct_eq-ne f.field r.a fp_zero ne)
      ∙ or_false (lowest_bit (f.to_bytes r.a))
    where
      or_false : (c : Bool) → (c || false) ≡ c
      or_false true = refl
      or_false false = refl

  neg_zero : fp_neg fp_zero ≡ fp_zero
  neg_zero = solve f.field.ring (opposite nil) nil [] refl

  neg_ne_zero : (x : Carrier) → x ≢ fp_zero → fp_neg x ≢ fp_zero
  neg_ne_zero x h e = h (
      solve f.field.ring (var 0) (opposite (opposite (var 0))) (x ∷ []) refl
      ∙ ap fp_neg e
      ∙ neg_zero)

  -- Of an element other than zero and its opposite one is odd.
  pub odd-neg : (r : Fp2 f) → r ≢ zero f → root_is_odd f (neg f r) ≡ not (root_is_odd f r)
  unfolding neg
  odd-neg r ne = elim (eq_cases f.field r.a fp_zero) [
    | inl e ↦
        odd_of_zero (neg f r) (ap fp_neg e ∙ neg_zero)
        ∙ f.lowest_bit_neg r.b (λ g. ne (ext f r (zero f) e g))
        ∙ ap not (sym (odd_of_zero r e))
    | inr other ↦
        odd_of_nonzero (neg f r) (neg_ne_zero r.a other)
        ∙ f.lowest_bit_neg r.a other
        ∙ ap not (sym (odd_of_nonzero r other))
  ]

  odd_ne_zero : (r : Fp2 f) → root_is_odd f r ≡ true → r ≢ zero f
  odd_ne_zero r h e =
      let g = ap (root_is_odd f) e ∙ odd_of_zero (zero f) refl ∙ f.lowest_bit_zero in cc

  -- The square root of any element is even: the lowest bit of its real part is 0 or, where that part
  -- is zero, of its imaginary part.
  pub sqrt-even : (x : Fp2 f) → root_is_odd f (sqrt f x) ≡ false
  sqrt-even x = elim (sqrt_cases x) [
    | inl (h, e) ↦ ap (root_is_odd f) e ∙ h
    | inr (h, e) ↦
        ap (root_is_odd f) e ∙ odd-neg (sqrt_root f x) (odd_ne_zero (sqrt_root f x) h) ∙ ap not h
  ]

  sqrt_root-real :
      (x : Fp2 f) → x.b ≡ fp_zero → f.sqrt (norm f x) ≡ fp_neg x.a → sqrt_root f x ≡ zero f
  unfolding sqrt_root
  sqrt_root-real x e h =
      elim (select_cases (new f im_part (fp_neg re_part)) (new f re_part im_part) is_eq) [
        | inl (g, chosen) ↦ chosen ∙ ap₂ (new f) im_zero (ap fp_neg re_zero ∙ neg_zero)
        | inr (g, chosen) ↦ chosen ∙ ap₂ (new f) re_zero im_zero
      ]
    where
      x0 : Carrier
      x0 = fp_add x.a (f.sqrt (norm f x))

      x1 : Carrier
      x1 = f.pow_p3div4 (fp_add x0 x0)

      re_part : Carrier
      re_part = fp_mul x0 x1

      im_part : Carrier
      im_part = fp_mul x.b x1

      is_eq : Bool
      is_eq = fp_ct_eq (fp_square (fp_add re_part re_part)) (fp_add x0 x0)

      re_zero : re_part ≡ fp_zero
      re_zero = ap (λ t. fp_mul t x1) (ap (fp_add x.a) h ∙ add_neg x.a) ∙ zero_mul f.field.ring x1

      im_zero : im_part ≡ fp_zero
      im_zero = ap (λ t. fp_mul t x1) e ∙ zero_mul f.field.ring x1

  -- Where the imaginary part is zero and the root of the norm is the opposite of the real part, other
  -- than zero, the element is a square and its square root is zero, not a root.
  pub sqrt-real :
      (x : Fp2 f)
      → x.b ≡ fp_zero
      → x.a ≢ fp_zero
      → f.sqrt (norm f x) ≡ fp_neg x.a
      → (is_square f x ≡ true) × (sqrt f x ≡ zero f) × (square f (sqrt f x) ≢ x)
  unfolding is_square norm square neg
  sqrt-real x e ne h = (a_square, root, no_root)
    where
      a_square : is_square f x ≡ true
      a_square =
          ap (λ t. t || ct_eq f x (zero f))
            ((f.is_square_iff (norm f x)).1 (
              x.a,
              solve f.field.ring (squared (var 0)) (squared (var 0) ⊕ squared nil) (x.a ∷ []) refl
                  ∙ ap (λ t. fp_add (fp_square x.a) (fp_square t)) (sym e),
            ))

      opposite_zero : neg f (zero f) ≡ zero f
      opposite_zero = ap₂ (new f) neg_zero neg_zero

      root : sqrt f x ≡ zero f
      root = elim (sqrt_cases x) [
        | inl (g, chosen) ↦ chosen ∙ sqrt_root-real x e h
        | inr (g, chosen) ↦ chosen ∙ ap (neg f) (sqrt_root-real x e h) ∙ opposite_zero
      ]

      no_root : square f (sqrt f x) ≢ x
      no_root g = ne (
          ap (λ t. t.a) (sym g ∙ ap (square f) root)
          ∙ solve f.field.ring ((nil ⊕ nil) ⊗ (nil ⊖ nil)) nil [] refl)
