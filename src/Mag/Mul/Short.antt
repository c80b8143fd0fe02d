-- ===== src/Mag/Mul/Short.antt =====
-- The length-bounded product skips rows and columns that are zero.
use sqisign_selkie.Prelude.{
  ℕ, zero, suc, ◌+◌, ◌*◌, ◌/◌, ◌%◌, ◌^◌, ◌≤◌, ◌≡◌, refl, sym, ap, ap₂, ◌∙◌, arith, List, [], ◌∷◌,
  length,
}
use sqisign_selkie.Word.{radix, IsWord}
use sqisign_selkie.Limbs.{IsLimbs, AllZero, ZeroFrom, zeros}
use sqisign_selkie.Limbs.Laws.{zeros-IsLimbs, length-limbs}
use sqisign_selkie.Mag.Mul.{
  keep_lowest, mul_row, mag_mul_loop, mag_mul, propagate_product, mul_short_row, mag_mul_short_loop,
  mag_mul_short,
}
use sqisign_selkie.Mag.Mul.Value.{limb_product, mul_row-Split, mag_mul-eq}

propagate_product-zero : (rs : List ℕ) → propagate_product rs 0 ≡ rs
unfolding propagate_product
propagate_product-zero [] = refl
propagate_product-zero (r ∷ rs) = refl

zero_column : (r x y c : ℕ) → y ≡ 0 → r + x * y + c ≡ r + c
zero_column r x y c e = rw e (omega arith)

-- A row over zero limbs only moves the carry on.
mul_row-zeros :
    (m : ℕ) (rs : List ℕ) (x : ℕ) (b : List ℕ) (c : ℕ)
    → IsLimbs m rs
    → IsWord c
    → AllZero b
    → (m ≤ length b)
    → mul_row rs x b c ≡ propagate_product rs c
unfolding mul_row propagate_product
mul_row-zeros zero [] x b c hr hc z h = refl
mul_row-zeros zero (r ∷ rs) x b c hr hc z h = elim hr [ ]
mul_row-zeros (suc m) [] x b c hr hc z h = elim hr [ ]
mul_row-zeros (suc m) (r ∷ rs) x [] c hr hc z h = absurd (omega arith)
mul_row-zeros (suc m) (r ∷ rs) x (y ∷ b) zero hr hc z h =
    let e = zero_column r x y 0 z.0 in
    let none : (r + 0) / 2 ^ 64 % radix ≡ 0 = omega arith in
    rw e (
      ap₂ ◌∷◌ (omega arith) (
        ap (mul_row rs x b) none
        ∙ mul_row-zeros m rs x b 0 hr.1 hc z.1 (omega arith)
        ∙ propagate_product-zero rs))
mul_row-zeros (suc m) (r ∷ rs) x (y ∷ b) (suc c) hr hc z h =
    let rest =
      mul_row-zeros m rs x b ((r + suc c) / 2 ^ 64 % radix) hr.1 (omega arith) z.1 (omega arith) in
    rw (zero_column r x y (suc c) z.0) (ground (arith, rest))

mul_short_row-eq :
    (k m n : ℕ) (rs : List ℕ) (x : ℕ) (b : List ℕ) (c : ℕ)
    → m ≤ n
    → IsLimbs m rs
    → IsWord x
    → IsLimbs n b
    → IsWord c
    → ZeroFrom k b
    → mul_short_row k rs x b c ≡ mul_row rs x b c
unfolding mul_short_row mul_row
mul_short_row-eq zero m n rs x b c h hr hx hb hc z =
    sym (mul_row-zeros m rs x b c hr hc z (rw (length-limbs n b hb) h))
mul_short_row-eq (suc k) m n [] x b c h hr hx hb hc z = refl
mul_short_row-eq (suc k) zero n (r ∷ rs) x b c h hr hx hb hc z = elim hr [ ]
mul_short_row-eq (suc k) (suc m) zero (r ∷ rs) x b c h hr hx hb hc z = absurd (omega arith)
mul_short_row-eq (suc k) (suc m) (suc n) (r ∷ rs) x [] c h hr hx hb hc z = elim hb [ ]
mul_short_row-eq (suc k) (suc m) (suc n) (r ∷ rs) x (y ∷ b) c h hr hx hb hc z =
    ap (λ l. (r + x * y + c) % radix ∷ l)
      (mul_short_row-eq k m n rs x b ((r + x * y + c) / 2 ^ 64 % radix) (omega arith) hr.1 hx hb.1
        (limb_product r x y c hr.0 hx hb.0 hc).2 z)

-- A row for a zero limb of `a` leaves the result as it is.
zero_row : (m n : ℕ) (rs b : List ℕ) → m ≤ n → IsLimbs m rs → IsLimbs n b → mul_row rs 0 b 0 ≡ rs
unfolding mul_row
zero_row zero n [] b h hr hb = refl
zero_row zero n (r ∷ rs) b h hr hb = elim hr [ ]
zero_row (suc m) n [] b h hr hb = elim hr [ ]
zero_row (suc m) zero (r ∷ rs) b h hr hb = absurd (omega arith)
zero_row (suc m) (suc n) (r ∷ rs) [] h hr hb = elim hb [ ]
zero_row (suc m) (suc n) (r ∷ rs) (y ∷ b) h hr hb =
    let none : (r + 0 * y + 0) / 2 ^ 64 % radix ≡ 0 = omega arith in
    ap₂ ◌∷◌ (omega arith) (ap (mul_row rs 0 b) none ∙ zero_row m n rs b (omega arith) hr.1 hb.1)

zero_rows :
    (m n : ℕ) (a rs b : List ℕ)
    → m ≤ n
    → IsLimbs m a
    → IsLimbs m rs
    → IsLimbs n b
    → AllZero a
    → mag_mul_loop a rs b ≡ rs
unfolding mag_mul_loop
zero_rows zero n [] rs b h ha hr hb z = refl
zero_rows zero n (x ∷ a) rs b h ha hr hb z = elim ha [ ]
zero_rows (suc m) n [] rs b h ha hr hb z = elim ha [ ]
zero_rows (suc m) n (x ∷ a) [] b h ha hr hb z = elim hr [ ]
zero_rows (suc m) n (x ∷ a) (r ∷ rs) b h ha hr hb z =
    rw (z.0, zero_row (suc m) n (r ∷ rs) b h hr hb)
      (ap (λ l. r ∷ l) (zero_rows m n a rs b (omega arith) ha.1 hr.1 hb z.1))

mag_mul_short_loop-eq :
    (k m n : ℕ) (a rs b : List ℕ) (lb : ℕ)
    → m ≤ n
    → IsLimbs m a
    → IsLimbs m rs
    → IsLimbs n b
    → ZeroFrom k a
    → ZeroFrom lb b
    → mag_mul_short_loop k a rs b lb ≡ mag_mul_loop a rs b
unfolding mag_mul_short_loop mag_mul_loop
mag_mul_short_loop-eq zero m n a rs b lb h ha hr hb za zb = sym (zero_rows m n a rs b h ha hr hb za)
mag_mul_short_loop-eq (suc k) m n [] rs b lb h ha hr hb za zb = refl
mag_mul_short_loop-eq (suc k) zero n (x ∷ a) rs b lb h ha hr hb za zb = elim ha [ ]
mag_mul_short_loop-eq (suc k) (suc m) n (x ∷ a) rs b lb h ha hr hb za zb =
    rw (mul_short_row-eq lb (suc m) n rs x b 0 h hr ha.0 hb (omega arith) zb) (
      step (mul_row rs x b 0) (mul_row-Split (suc m) n rs x b 0 h hr ha.0 hb (omega arith)).words
        (λ rest words. mag_mul_short_loop-eq k m n a rest b lb (omega arith) ha.1 words hb za zb))
  where
    step :
        (row : List ℕ)
        → IsLimbs (suc m) row
        → ((rest : List ℕ)
            → IsLimbs m rest
            → mag_mul_short_loop k a rest b lb ≡ mag_mul_loop a rest b)
        → keep_lowest (λ rest. mag_mul_short_loop k a rest b lb) row
          ≡ keep_lowest (λ rest. mag_mul_loop a rest b) row
    step [] words later = refl
    step (r ∷ rest) words later = ap (λ l. r ∷ l) (later rest words.1)

-- On operands with no limb at or past `la` and `lb`, the length-bounded product is the full one.
pub mag_mul_short-eq-mag_mul :
    (n : ℕ) (a b : List ℕ) (la lb : ℕ)
    → IsLimbs n a
    → IsLimbs n b
    → ZeroFrom la a
    → ZeroFrom lb b
    → mag_mul_short a b la lb ≡ mag_mul a b
unfolding mag_mul_short
mag_mul_short-eq-mag_mul n a b la lb ha hb za zb =
    ap (λ k. mag_mul_short_loop la a (zeros k) b lb) (length-limbs n a ha)
    ∙ mag_mul_short_loop-eq la n n a (zeros n) b lb (omega arith) ha (zeros-IsLimbs n) hb za zb
    ∙ sym (mag_mul-eq n a b ha)
