-- ===== src/Surfaces/Gluing/Laws.antt =====
-- Laws of the gluing: one inversion for a list, the inverses of the dual null point, and the components
-- of the sum and the difference.
use sqisign_selkie.Prelude.{◌≡◌, ◌≢◌, refl, sym, ap, ap₂, ◌∙◌, List, [], ◌∷◌, map}
use sqisign_selkie.Ring.Polynomial.{var, ◌⊗◌}
use sqisign_selkie.Ring.Sound.{solve}
use sqisign_selkie.Fields.{Field}
use sqisign_selkie.Fields.Laws.{cancel, mul-ne_zero}
use sqisign_selkie.Surfaces.Gluing.{
  GluingKernel, codomain, forward_pass, backward_pass, batch_invert,
}

module _ (k : Field) where
  open k use {invert}
  open k.ring use {Carrier, zero, one, mul}

  abbrev pub AllNonzero : List Carrier → Type 0
  AllNonzero [] = Unit
  AllNonzero (x ∷ xs) = (x ≢ zero) × AllNonzero xs

  invert-mul_right : (x y : Carrier) → x ≢ zero → y ≢ zero → mul (invert (mul x y)) y ≡ invert x
  invert-mul_right x y h g = cancel k x _ _ h (
      solve k.ring (var 0 ⊗ (var 2 ⊗ var 1)) ((var 0 ⊗ var 1) ⊗ var 2)
        (x ∷ y ∷ invert (mul x y) ∷ []) refl
      ∙ k.invert_lem (mul x y) (mul-ne_zero k x y h g)
      ∙ sym (k.invert_lem x h))

  invert-mul_left : (x y : Carrier) → x ≢ zero → y ≢ zero → mul (invert (mul x y)) x ≡ invert y
  invert-mul_left x y h g =
      ap (λ t. mul (invert t) x) (k.ring.mul_comm x y) ∙ invert-mul_right y x g h

  -- From the inverse of the whole product, the backward pass gives that of the prefix and those of the
  -- elements.
  backward_pass-invert :
      (p : Carrier) (xs : List Carrier)
      → p ≢ zero
      → AllNonzero xs
      → backward_pass k p xs (invert (forward_pass k p xs)) ≡ (invert p, map invert xs)
  unfolding forward_pass backward_pass
  backward_pass-invert p [] h g = refl
  backward_pass-invert p (x ∷ xs) h (hx, g) =
      ap (λ (r : Carrier × List Carrier). (mul r.0 x, mul r.0 p ∷ r.1))
        (backward_pass-invert (mul p x) xs (mul-ne_zero k p x h hx) g)
      ∙ ap₂ (λ s t. (s, t ∷ map invert xs)) (invert-mul_right p x h hx) (invert-mul_left p x h hx)

  -- On a list without zeros `batch_invert` inverts every element.
  pub batch_invert-map : (xs : List Carrier) → AllNonzero xs → batch_invert k xs ≡ map invert xs
  unfolding batch_invert
  batch_invert-map [] h = refl
  batch_invert-map (x ∷ xs) (h, g) =
      ap (λ (r : Carrier × List Carrier). r.0 ∷ r.1) (backward_pass-invert x xs h g)

  -- The products of the four factors, in any of the orders.
  crossed :
      (x1 y1 x2 z2 : Carrier)
      → (mul (mul y1 x2) (mul x1 z2) ≡ mul (mul x1 x2) (mul y1 z2))
        × (mul (mul x1 z2) (mul y1 x2) ≡ mul (mul x1 x2) (mul y1 z2))
  crossed x1 y1 x2 z2 =
      let env = x1 ∷ y1 ∷ x2 ∷ z2 ∷ [] in
      let whole = (var 0 ⊗ var 2) ⊗ (var 1 ⊗ var 3) in
      (
        solve k.ring ((var 1 ⊗ var 2) ⊗ (var 0 ⊗ var 3)) whole env refl,
        solve k.ring ((var 0 ⊗ var 3) ⊗ (var 1 ⊗ var 2)) whole env refl,
      )

  -- The inverses of the gluing are those of its dual null point up to one common factor, and the last
  -- coordinate is zero.
  pub codomain-inverses :
      (kernel : GluingKernel k)
      → let dual = (codomain k kernel).dual in
        (mul dual.beta dual.beta_inv ≡ mul dual.alpha dual.alpha_inv)
        × (mul dual.gamma dual.gamma_inv ≡ mul dual.alpha dual.alpha_inv)
        × (dual.delta ≡ zero)
  unfolding codomain
  codomain-inverses kernel = let (second, third) = crossed _ _ _ _ in (second, third, refl)
