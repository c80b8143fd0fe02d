-- ===== src/Algebra/Prime.antt =====
-- The prime at a width of at least four limbs.
use sqisign_selkie.Prelude.{ℕ, zero, suc, ◌+◌, ◌-◌, ◌*◌, ◌^◌, ◌≤◌, ◌≡◌, refl, ap, arith, min, drop}
use sqisign_selkie.Int.{pos}
use sqisign_selkie.Limbs.{IsLimbs, val}
use sqisign_selkie.BigInt.From.{from_sign_and_limbs}
use sqisign_selkie.BigInt.Resize.Value.{copy_limbs_value}
use sqisign_selkie.BigInt.Expression.{Exact}
use sqisign_selkie.Algebra.{p_wide, p_at_width}

-- 5·2²⁴⁸ − 1
abbrev pub prime : ℕ
prime = 5 * 2 ^ 248 - 1

p_wide-IsLimbs : IsLimbs 8 p_wide
p_wide-IsLimbs = omega arith

top_zero : (k : ℕ) → 4 ≤ k → val (drop k p_wide) ≡ 0
top_zero (suc (suc (suc (suc zero)))) h = refl
top_zero (suc (suc (suc (suc (suc zero))))) h = refl
top_zero (suc (suc (suc (suc (suc (suc zero)))))) h = refl
top_zero (suc (suc (suc (suc (suc (suc (suc zero))))))) h = refl
top_zero (suc (suc (suc (suc (suc (suc (suc (suc zero)))))))) h = refl
top_zero (suc (suc (suc (suc (suc (suc (suc (suc (suc k))))))))) h = refl
top_zero zero h = absurd (omega (arith, h))
top_zero (suc zero) h = absurd (omega (arith, h))
top_zero (suc (suc zero)) h = absurd (omega (arith, h))
top_zero (suc (suc (suc zero))) h = absurd (omega (arith, h))

low_is_all : (a b t p : ℕ) → t ≡ 0 → a + b * t ≡ p → a ≡ p
low_is_all a b t p z e = grind arith

-- The prime of the source, at a width of at least four limbs, is 5·2²⁴⁸ − 1.
pub p_at_width_value : (n : ℕ) → 4 ≤ n → Exact n (p_at_width n) (pos prime) prime
unfolding p_at_width from_sign_and_limbs
p_at_width_value n h =
    let (value, words) =
      copy_limbs_value (min 8 n) 8 n p_wide (omega arith) (omega arith) p_wide-IsLimbs in
    let high = top_zero (min 8 n) (omega (arith, h)) in
    record {
      valid = record { flag = omega arith; words = words };
      exact = ap pos (low_is_all _ _ _ prime high value);
      below = omega arith;
    }
