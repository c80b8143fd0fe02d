-- ===== src/Mag/Mul/Value.antt =====
-- The product of two magnitudes modulo the bound.
use native.Mathlib.Nat.{mod-eq_of_lt, add-mul-mod_self_left}
use sqisign_selkie.Prelude.{
  ℕ, zero, suc, ◌+◌, ◌*◌, ◌/◌, ◌%◌, ◌^◌, ◌≤◌, ◌≡◌, sym, ap, ◌∙◌, arith, List, [], ◌∷◌,
}
use sqisign_selkie.Word.{radix, IsWord}
use sqisign_selkie.Word.Laws.{word_product}
use sqisign_selkie.Limbs.{IsLimbs, val, cap, zeros}
use sqisign_selkie.Limbs.Laws.{val-lt, length-limbs, zeros-IsLimbs, val-zeros}
use sqisign_selkie.Mag.Mul.{keep_lowest, mul_row, mag_mul_loop, mag_mul}

-- A number and the part of it past `m` limbs.
pub record Split (m : ℕ) (low : List ℕ) (total : ℕ) : Type 0 where
  pub high : ℕ
  pub value : val low + cap m * high ≡ total
  pub words : IsLimbs m low

-- `result[i + j] + a[i] * b[j] + carry` fits 128 bits.
pub limb_product :
    (r x y c : ℕ)
    → IsWord r
    → IsWord x
    → IsWord y
    → IsWord c
    → ((r + x * y + c) % radix + radix * ((r + x * y + c) / 2 ^ 64 % radix) ≡ r + x * y + c)
      × IsWord ((r + x * y + c) % radix)
      × IsWord ((r + x * y + c) / 2 ^ 64 % radix)
limb_product r x y c hr hx hy hc = omega (arith, word_product x y hx hy)

pub mul_row-Split :
    (m n : ℕ) (rs : List ℕ) (x : ℕ) (b : List ℕ) (c : ℕ)
    → m ≤ n
    → IsLimbs m rs
    → IsWord x
    → IsLimbs n b
    → IsWord c
    → Split m (mul_row rs x b c) (val rs + x * val b + c)
unfolding mul_row
mul_row-Split zero n [] x b c h hr hx hb hc = record {
  high = x * val b + c;
  value = omega arith;
  words = tt;
}
mul_row-Split zero n (r ∷ rs) x b c h hr hx hb hc = elim hr [ ]
mul_row-Split (suc m) n [] x b c h hr hx hb hc = elim hr [ ]
mul_row-Split (suc m) zero (r ∷ rs) x b c h hr hx hb hc = absurd (omega arith)
mul_row-Split (suc m) (suc n) (r ∷ rs) x [] c h hr hx hb hc = elim hb [ ]
mul_row-Split (suc m) (suc n) (r ∷ rs) x (y ∷ b) c h hr hx hb hc =
    let (limb, low, high) = limb_product r x y c hr.0 hx hb.0 hc in
    let rest =
      mul_row-Split m n rs x b ((r + x * y + c) / 2 ^ 64 % radix) (omega arith) hr.1 hx hb.1 high in
    record { high = rest.high; value = omega (arith, rest.value); words = (low, rest.words) }

pub mag_mul_loop-Split :
    (m n : ℕ) (a rs b : List ℕ)
    → m ≤ n
    → IsLimbs m a
    → IsLimbs m rs
    → IsLimbs n b
    → Split m (mag_mul_loop a rs b) (val rs + val a * val b)
unfolding mag_mul_loop
mag_mul_loop-Split zero n [] rs b h ha hr hb = record { high = 0; value = omega arith; words = hr }
mag_mul_loop-Split zero n (x ∷ a) rs b h ha hr hb = elim ha [ ]
mag_mul_loop-Split (suc m) n [] rs b h ha hr hb = elim ha [ ]
mag_mul_loop-Split (suc m) n (x ∷ a) rs b h ha hr hb =
    let first = mul_row-Split (suc m) n rs x b 0 h hr ha.0 hb (omega arith) in
    step (mul_row rs x b 0) first
      (λ r rest words. mag_mul_loop-Split m n a rest b (omega arith) ha.1 words hb)
  where
    step :
        (row : List ℕ)
        → Split (suc m) row (val rs + x * val b + 0)
        → ((r : ℕ) (rest : List ℕ)
            → IsLimbs m rest
            → Split m (mag_mul_loop a rest b) (val rest + val a * val b))
        → Split
            (suc m)
            (keep_lowest (λ rest. mag_mul_loop a rest b) row)
            (val rs + val (x ∷ a) * val b)
    step [] first later = elim first.words [ ]
    step (r ∷ rest) first later =
        let rows = later r rest first.words.1 in
        record {
          high = first.high + rows.high;
          value = omega (arith, first.value, rows.value);
          words = (first.words.0, rows.words);
        }

pub Split-mod : {m : ℕ} {low : List ℕ} {total : ℕ} → Split m low total → val low ≡ total % cap m
Split-mod {m} {low} s =
    sym (mod-eq_of_lt (val-lt m low s.words))
    ∙ sym (add-mul-mod_self_left (val low) (cap m) s.high)
    ∙ ap (λ t. t % cap m) s.value

pub mag_mul-eq : (n : ℕ) (a b : List ℕ) → IsLimbs n a → mag_mul a b ≡ mag_mul_loop a (zeros n) b
unfolding mag_mul
mag_mul-eq n a b ha = ap (λ k. mag_mul_loop a (zeros k) b) (length-limbs n a ha)

-- The schoolbook product is the product of the magnitudes modulo the bound.
pub mag_mul_value :
    (n : ℕ) (a b : List ℕ)
    → IsLimbs n a
    → IsLimbs n b
    → (val (mag_mul a b) ≡ (val a * val b) % cap n) × IsLimbs n (mag_mul a b)
mag_mul_value n a b ha hb =
    let split = mag_mul_loop-Split n n a (zeros n) b (omega arith) ha (zeros-IsLimbs n) hb in
    rw (mag_mul-eq n a b ha)
      (Split-mod split ∙ ap (λ t. t % cap n) (omega (arith, val-zeros n)), split.words)
