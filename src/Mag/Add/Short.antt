-- ===== src/Mag/Add/Short.antt =====
-- The length-bounded addition skips limbs that are zero.
use sqisign_selkie.Prelude.{ℕ, zero, suc, ◌≤◌, max, ◌≡◌, refl, arith, List, [], ◌∷◌}
use sqisign_selkie.Limbs.{IsLimbs, AllZero, ZeroFrom, zeros}
use sqisign_selkie.Limbs.Laws.{ZeroFrom-le, length-limbs}
use sqisign_selkie.Mag.Add.Value.{add_limb_value}
use sqisign_selkie.Mag.Add.{
  add_limb, mag_add_loop, mag_add, propagate_carry, mag_add_short_loop, mag_add_short,
}

add_loop_no_carry :
    (n : ℕ) (a b : List ℕ)
    → IsLimbs n a
    → IsLimbs n b
    → AllZero a
    → AllZero b
    → mag_add_loop a b 0 ≡ (zeros n, 0)
unfolding mag_add_loop add_limb
add_loop_no_carry zero [] [] ha hb za zb = refl
add_loop_no_carry zero [] (y ∷ b) ha hb za zb = elim hb [ ]
add_loop_no_carry zero (x ∷ a) b ha hb za zb = elim ha [ ]
add_loop_no_carry (suc n) [] b ha hb za zb = elim ha [ ]
add_loop_no_carry (suc n) (x ∷ a) [] ha hb za zb = elim hb [ ]
add_loop_no_carry (suc n) (x ∷ a) (y ∷ b) ha hb za zb =
    rw (za.0, zb.0, add_loop_no_carry n a b ha.1 hb.1 za.1 zb.1)

propagate_no_carry : (n : ℕ) → propagate_carry (zeros n) 0 ≡ (zeros n, 0)
unfolding propagate_carry
propagate_no_carry zero = refl
propagate_no_carry (suc n) = refl

-- Where both operands are zero the full-width loop only moves the carry on.
add_loop-eq-propagate :
    (n : ℕ) (a b : List ℕ) (c : ℕ)
    → c ≤ 1
    → IsLimbs n a
    → IsLimbs n b
    → AllZero a
    → AllZero b
    → propagate_carry (zeros n) c ≡ mag_add_loop a b c
unfolding mag_add_loop
add_loop-eq-propagate n a b zero hc ha hb za zb =
    rw (add_loop_no_carry n a b ha hb za zb) (propagate_no_carry n)
add_loop-eq-propagate zero [] [] (suc c) hc ha hb za zb = unfold propagate_carry in refl
add_loop-eq-propagate zero [] (y ∷ b) (suc c) hc ha hb za zb = elim hb [ ]
add_loop-eq-propagate zero (x ∷ a) b (suc c) hc ha hb za zb = elim ha [ ]
add_loop-eq-propagate (suc n) [] b (suc c) hc ha hb za zb = elim ha [ ]
add_loop-eq-propagate (suc n) (x ∷ a) [] (suc c) hc ha hb za zb = elim hb [ ]
add_loop-eq-propagate (suc n) (x ∷ a) (y ∷ b) (suc c) hc ha hb za zb =
    let one : c ≡ 0 = omega arith in
    rw (one, za.0, zb.0)
      (unfold add_limb propagate_carry in
        rw (add_loop_no_carry n a b ha.1 hb.1 za.1 zb.1, propagate_no_carry n) refl)

add_short_loop-eq :
    (k n : ℕ) (a b : List ℕ) (c : ℕ)
    → c ≤ 1
    → IsLimbs n a
    → IsLimbs n b
    → ZeroFrom k a
    → ZeroFrom k b
    → mag_add_short_loop k (zeros n) a b c ≡ mag_add_loop a b c
unfolding mag_add_short_loop mag_add_loop
add_short_loop-eq zero n a b c hc ha hb za zb = add_loop-eq-propagate n a b c hc ha hb za zb
add_short_loop-eq (suc k) zero [] [] c hc ha hb za zb = refl
add_short_loop-eq (suc k) zero [] (y ∷ b) c hc ha hb za zb = elim hb [ ]
add_short_loop-eq (suc k) zero (x ∷ a) b c hc ha hb za zb = elim ha [ ]
add_short_loop-eq (suc k) (suc n) [] b c hc ha hb za zb = elim ha [ ]
add_short_loop-eq (suc k) (suc n) (x ∷ a) [] c hc ha hb za zb = elim hb [ ]
add_short_loop-eq (suc k) (suc n) (x ∷ a) (y ∷ b) c hc ha hb za zb =
    let carry = (add_limb_value x y c ha.0 hb.0 hc).2 in
    rw (add_short_loop-eq k n a b (add_limb x y c).1 carry ha.1 hb.1 za zb)

-- On operands with no limb at or past `la` and `lb`, the length-bounded addition returns what the
-- full-width one does, the carry included.
pub mag_add_short-eq-mag_add :
    (n : ℕ) (a b : List ℕ) (la lb : ℕ)
    → IsLimbs n a
    → IsLimbs n b
    → ZeroFrom la a
    → ZeroFrom lb b
    → mag_add_short a b la lb ≡ mag_add a b
unfolding mag_add_short mag_add
mag_add_short-eq-mag_add n a b la lb ha hb za zb = rw (length-limbs n a ha) (
    add_short_loop-eq (max la lb) n a b 0 (omega arith) ha hb
      (ZeroFrom-le la (max la lb) a (omega arith) za)
      (ZeroFrom-le lb (max la lb) b (omega arith) zb))
