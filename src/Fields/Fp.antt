-- ===== src/Fields/Fp.antt =====
-- The interface to `Fp` of src/fields/fp/mod.rs, the integers modulo a prime that is 3 modulo 4: the
-- operations that the backends provide, with what their documentation promises. An element stands
-- for its residue, so elements with one value are equal.
use sqisign_selkie.Prelude.{
  ◌≡◌, ◌≢◌, ◌↔◌, ◌⊎◌, ℕ, Bool, true, false, not, List, [], ◌∷◌, ◌==◌, bit_and,
}
use sqisign_selkie.Fields.{Field}

abbrev pub fp_encoded_bytes : ℕ
fp_encoded_bytes = 32

-- The first of some bytes.
abbrev pub first : List ℕ → ℕ
first [] = 0
first (b ∷ bytes) = b

-- The test of the lowest bit of an encoding.
abbrev pub lowest_bit : List ℕ → Bool
lowest_bit bytes = bit_and (first bytes) 1 == 1

pub record Fp : Type 1 where
  pub field : Field
  pub minus_one : field.ring.Carrier
  pub minus_one_lem : minus_one ≡ field.ring.neg field.ring.one
  pub two_ne_zero : field.ring.add field.ring.one field.ring.one ≢ field.ring.zero
  -- The prime is 3 modulo 4.
  pub no_root : (x : field.ring.Carrier) → field.ring.square x ≢ minus_one
  pub sum_of_2_products : (a1 b1 a2 b2 : field.ring.Carrier) → field.ring.Carrier
  pub sum_of_2_products_lem :
      (a1 b1 a2 b2 : field.ring.Carrier)
      → sum_of_2_products a1 b1 a2 b2 ≡ field.ring.add (field.ring.mul a1 b1) (field.ring.mul a2 b2)
  pub difference_of_2_products : (a1 b1 a2 b2 : field.ring.Carrier) → field.ring.Carrier
  pub difference_of_2_products_lem :
      (a1 b1 a2 b2 : field.ring.Carrier)
      → difference_of_2_products a1 b1 a2 b2
        ≡ field.ring.sub (field.ring.mul a1 b1) (field.ring.mul a2 b2)
  pub is_square : field.ring.Carrier → Bool
  pub is_square_iff :
      (x : field.ring.Carrier)
      → (is_square x ≡ true) ↔ ((s : field.ring.Carrier) × (field.ring.square s ≡ x))
  pub sqrt : field.ring.Carrier → field.ring.Carrier
  pub sqrt_lem : (x : field.ring.Carrier) → is_square x ≡ true → field.ring.square (sqrt x) ≡ x
  pub pow_p3div4 : field.ring.Carrier → field.ring.Carrier
  pub pow_p3div4_lem :
      (x : field.ring.Carrier)
      → x ≢ field.ring.zero
      → (field.ring.mul x (field.ring.square (pow_p3div4 x)) ≡ field.ring.one)
        ⊎ (field.ring.mul x (field.ring.square (pow_p3div4 x)) ≡ minus_one)
  pub conditional_select : field.ring.Carrier → field.ring.Carrier → Bool → field.ring.Carrier
  pub conditional_select_false : (a b : field.ring.Carrier) → conditional_select a b false ≡ a
  pub conditional_select_true : (a b : field.ring.Carrier) → conditional_select a b true ≡ b
  pub to_bytes : field.ring.Carrier → List ℕ
  pub from_bytes : List ℕ → field.ring.Carrier
  -- The residues of x and of -x add up to the prime, which is odd.
  pub lowest_bit_zero : lowest_bit (to_bytes field.ring.zero) ≡ false
  pub lowest_bit_neg :
      (x : field.ring.Carrier)
      → x ≢ field.ring.zero
      → lowest_bit (to_bytes (field.ring.neg x)) ≡ not (lowest_bit (to_bytes x))
