-- ===== src/Int/Product.antt =====
-- Products of integers: their two parts, the ring laws, and absolute values.
use sqisign_selkie.Prelude.{ℕ, ◌+◌, ◌*◌, ◌≤◌, ◌≡◌, ap, arith}
use sqisign_selkie.Int.{
  ℤ, pos, pos_part, neg_part, ◌+ℤ◌, ◌-ℤ◌, ◌*ℤ◌, +ℤ_parts, eq_of_parts, int_laws, abs_ℤ,
}

pos_part-*ℤ : (a b : ℤ) → pos_part (a *ℤ b) ≡ pos_part a * pos_part b + neg_part a * neg_part b
unfolding ◌*ℤ◌
pos_part-*ℤ a b = ground arith

neg_part-*ℤ : (a b : ℤ) → neg_part (a *ℤ b) ≡ pos_part a * neg_part b + neg_part a * pos_part b
unfolding ◌*ℤ◌
neg_part-*ℤ a b = ground arith

ruleset product_laws = (pos_part-*ℤ, neg_part-*ℤ)

pub +ℤ_comm : (a b : ℤ) → a +ℤ b ≡ b +ℤ a
+ℤ_comm a b = omega int_laws

pub +ℤ_assoc : (a b c : ℤ) → (a +ℤ b) +ℤ c ≡ a +ℤ (b +ℤ c)
+ℤ_assoc a b c = omega int_laws

pub zero-+ℤ : (a : ℤ) → pos 0 +ℤ a ≡ a
zero-+ℤ a = omega int_laws

pub +ℤ_opposite : (a : ℤ) → a +ℤ (pos 0 -ℤ a) ≡ pos 0
+ℤ_opposite a = omega int_laws

pub *ℤ_comm : (a b : ℤ) → a *ℤ b ≡ b *ℤ a
*ℤ_comm a b = eq_of_parts (a *ℤ b) (b *ℤ a) (simp product_laws (omega arith))

pub *ℤ_assoc : (a b c : ℤ) → (a *ℤ b) *ℤ c ≡ a *ℤ (b *ℤ c)
*ℤ_assoc a b c = eq_of_parts ((a *ℤ b) *ℤ c) (a *ℤ (b *ℤ c)) (simp product_laws (omega arith))

pub one-*ℤ : (a : ℤ) → pos 1 *ℤ a ≡ a
one-*ℤ a = eq_of_parts (pos 1 *ℤ a) a (simp product_laws (omega arith))

pub *ℤ-+ℤ : (a b c : ℤ) → a *ℤ (b +ℤ c) ≡ a *ℤ b +ℤ a *ℤ c
*ℤ-+ℤ a b c = eq_of_parts (a *ℤ (b +ℤ c)) (a *ℤ b +ℤ a *ℤ c) (
    simp product_laws (
      omega (
        arith,
        simp product_laws at (+ℤ_parts (a *ℤ b) (a *ℤ c)),
        ap (λ (t : ℕ). pos_part a * t) (+ℤ_parts b c),
        ap (λ (t : ℕ). neg_part a * t) (+ℤ_parts b c),
      )))

pub abs-+ℤ : (a b : ℤ) → abs_ℤ (a +ℤ b) ≤ abs_ℤ a + abs_ℤ b
unfolding ◌+ℤ◌
abs-+ℤ a b = ground arith

pub abs--ℤ : (a b : ℤ) → abs_ℤ (a -ℤ b) ≤ abs_ℤ a + abs_ℤ b
unfolding ◌-ℤ◌
abs--ℤ a b = ground arith

pub abs-*ℤ : (a b : ℤ) → abs_ℤ (a *ℤ b) ≡ abs_ℤ a * abs_ℤ b
abs-*ℤ a b = simp product_laws (omega arith)
