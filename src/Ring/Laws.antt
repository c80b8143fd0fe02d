-- ===== src/Ring/Laws.antt =====
-- Consequences of the ring laws on sums, differences and products.
use sqisign_selkie.Prelude.{◌≡◌, sym, ap, ap₂, ◌∙◌}
use sqisign_selkie.Ring.{CommRing}

module _ (r : CommRing) where
  open r use {
    Carrier, zero, one, add, sub, neg, mul, square, add_assoc, add_comm, zero_add, add_neg, sub_lem,
    mul_assoc, mul_comm, one_mul, mul_add, square_lem,
  }

  pub add_zero : (a : Carrier) → add a zero ≡ a
  add_zero a = add_comm a zero ∙ zero_add a

  pub add_left : (a b c : Carrier) → add a (add b c) ≡ add b (add a c)
  add_left a b c = sym (add_assoc a b c) ∙ ap (λ t. add t c) (add_comm a b) ∙ add_assoc b a c

  pub add_pairs : (a b c d : Carrier) → add (add a b) (add c d) ≡ add (add a c) (add b d)
  add_pairs a b c d =
      add_assoc a b (add c d) ∙ ap (add a) (add_left b c d) ∙ sym (add_assoc a c (add b d))

  pub mul_one : (a : Carrier) → mul a one ≡ a
  mul_one a = mul_comm a one ∙ one_mul a

  pub mul_left : (a b c : Carrier) → mul a (mul b c) ≡ mul b (mul a c)
  mul_left a b c = sym (mul_assoc a b c) ∙ ap (λ t. mul t c) (mul_comm a b) ∙ mul_assoc b a c

  pub mul_pairs : (a b c d : Carrier) → mul (mul a b) (mul c d) ≡ mul (mul a c) (mul b d)
  mul_pairs a b c d =
      mul_assoc a b (mul c d) ∙ ap (mul a) (mul_left b c d) ∙ sym (mul_assoc a c (mul b d))

  pub add_mul : (a b c : Carrier) → mul (add a b) c ≡ add (mul a c) (mul b c)
  add_mul a b c = mul_comm (add a b) c ∙ mul_add c a b ∙ ap₂ add (mul_comm c a) (mul_comm c b)

  pub add_cancel : (a b c : Carrier) → add a b ≡ add a c → b ≡ c
  add_cancel a b c e = sym (undo b) ∙ ap (add (neg a)) e ∙ undo c
    where
      undo : (d : Carrier) → add (neg a) (add a d) ≡ d
      undo d =
          sym (add_assoc (neg a) a d)
          ∙ ap (λ t. add t d) (add_comm (neg a) a ∙ add_neg a)
          ∙ zero_add d

  pub mul_zero : (a : Carrier) → mul a zero ≡ zero
  mul_zero a =
      add_cancel (mul a zero) (mul a zero) zero
        (sym (mul_add a zero zero) ∙ ap (mul a) (zero_add zero) ∙ sym (add_zero (mul a zero)))

  pub zero_mul : (a : Carrier) → mul zero a ≡ zero
  zero_mul a = mul_comm zero a ∙ mul_zero a

  -- Two differences are equal where the crossed sums are.
  pub crossed : (x a b y c d : Carrier) → add x b ≡ a → add y d ≡ c → add a d ≡ add c b → x ≡ y
  crossed x a b y c d ex ey e = add_cancel (add b d) x y (
      add_comm (add b d) x
      ∙ sym (add_assoc x b d)
      ∙ ap (λ t. add t d) ex
      ∙ e
      ∙ ap (λ t. add t b) (sym ey)
      ∙ add_assoc y d b
      ∙ ap (add y) (add_comm d b)
      ∙ add_comm y (add b d))

  pub sub-add : (a b : Carrier) → add (sub a b) b ≡ a
  sub-add a b =
      ap (λ t. add t b) (sub_lem a b)
      ∙ add_assoc a (neg b) b
      ∙ ap (add a) (add_comm (neg b) b ∙ add_neg b)
      ∙ add_zero a
