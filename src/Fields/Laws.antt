-- ===== src/Fields/Laws.antt =====
-- Consequences of the field laws: decided equality, cancelling, and products that are zero.
use sqisign_selkie.Prelude.{◌≡◌, ◌≢◌, ◌⊎◌, inl, inr, refl, sym, ap, ◌∙◌, true, false, Bool-cases}
use sqisign_selkie.Ring.Laws.{mul_zero}
use sqisign_selkie.Fields.{Field}

module _ (k : Field) where
  open k use {invert, ct_eq, invert_lem, ct_eq_iff, one_ne_zero}
  open k.ring use {Carrier, zero, one, add, neg, mul, mul_assoc, mul_comm, one_mul}

  pub eq_cases : (x y : Carrier) → (x ≡ y) ⊎ (x ≢ y)
  eq_cases x y = elim (Bool-cases (ct_eq x y)) [
    | inl h ↦ inl ((ct_eq_iff x y).0 h)
    | inr h ↦ inr (λ e. let g = (ct_eq_iff x y).1 e in cc)
  ]

  pub ct_eq_refl : (x : Carrier) → ct_eq x x ≡ true
  ct_eq_refl x = (ct_eq_iff x x).1 refl

  pub ct_eq-ne : (x y : Carrier) → x ≢ y → ct_eq x y ≡ false
  ct_eq-ne x y h = elim (Bool-cases (ct_eq x y)) [
    | inl e ↦ absurd (h ((ct_eq_iff x y).0 e))
    | inr e ↦ e
  ]

  undo : (x y : Carrier) → x ≢ zero → mul (invert x) (mul x y) ≡ y
  undo x y h =
      sym (mul_assoc (invert x) x y)
      ∙ ap (λ t. mul t y) (mul_comm (invert x) x ∙ invert_lem x h)
      ∙ one_mul y

  pub cancel : (x y z : Carrier) → x ≢ zero → mul x y ≡ mul x z → y ≡ z
  cancel x y z h e = sym (undo x y h) ∙ ap (mul (invert x)) e ∙ undo x z h

  pub no_zero_divisors : (x y : Carrier) → x ≢ zero → mul x y ≡ zero → y ≡ zero
  no_zero_divisors x y h e = cancel x y zero h (e ∙ sym (mul_zero k.ring x))

  pub mul-ne_zero : (x y : Carrier) → x ≢ zero → y ≢ zero → mul x y ≢ zero
  mul-ne_zero x y h g e = g (no_zero_divisors x y h e)

  pub invert-ne_zero : (x : Carrier) → x ≢ zero → invert x ≢ zero
  invert-ne_zero x h e = one_ne_zero (sym (invert_lem x h) ∙ ap (mul x) e ∙ mul_zero k.ring x)
