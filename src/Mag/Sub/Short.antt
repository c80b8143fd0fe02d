-- ===== src/Mag/Sub/Short.antt =====
-- The length-bounded subtraction skips limbs that are zero.
use sqisign_selkie.Prelude.{ℕ, zero, suc, ◌≤◌, max, ◌≡◌, refl, arith, List, [], ◌∷◌}
use sqisign_selkie.Limbs.{IsLimbs, AllZero, ZeroFrom, zeros}
use sqisign_selkie.Limbs.Laws.{ZeroFrom-le, length-limbs}
use sqisign_selkie.Mag.Sub.Value.{sub_limb_value}
use sqisign_selkie.Mag.Sub.{
  sub_limb, mag_sub_loop, mag_sub, propagate_borrow, mag_sub_short_loop, mag_sub_short,
}

sub_loop_no_borrow :
    (n : ℕ) (a b : List ℕ)
    → IsLimbs n a
    → IsLimbs n b
    → AllZero a
    → AllZero b
    → mag_sub_loop a b 0 ≡ (zeros n, 0)
unfolding mag_sub_loop sub_limb
sub_loop_no_borrow zero [] [] ha hb za zb = refl
sub_loop_no_borrow zero [] (y ∷ b) ha hb za zb = elim hb [ ]
sub_loop_no_borrow zero (x ∷ a) b ha hb za zb = elim ha [ ]
sub_loop_no_borrow (suc n) [] b ha hb za zb = elim ha [ ]
sub_loop_no_borrow (suc n) (x ∷ a) [] ha hb za zb = elim hb [ ]
sub_loop_no_borrow (suc n) (x ∷ a) (y ∷ b) ha hb za zb =
    rw (za.0, zb.0, sub_loop_no_borrow n a b ha.1 hb.1 za.1 zb.1)

propagate_no_borrow : (n : ℕ) → propagate_borrow (zeros n) 0 ≡ (zeros n, 0)
unfolding propagate_borrow
propagate_no_borrow zero = refl
propagate_no_borrow (suc n) = refl

-- Where both operands are zero the full-width loop only moves the borrow on.
sub_loop-eq-propagate :
    (n : ℕ) (a b : List ℕ) (c : ℕ)
    → c ≤ 1
    → IsLimbs n a
    → IsLimbs n b
    → AllZero a
    → AllZero b
    → propagate_borrow (zeros n) c ≡ mag_sub_loop a b c
unfolding mag_sub_loop
sub_loop-eq-propagate n a b zero hc ha hb za zb =
    rw (sub_loop_no_borrow n a b ha hb za zb) (propagate_no_borrow n)
sub_loop-eq-propagate zero [] [] (suc c) hc ha hb za zb = unfold propagate_borrow in refl
sub_loop-eq-propagate zero [] (y ∷ b) (suc c) hc ha hb za zb = elim hb [ ]
sub_loop-eq-propagate zero (x ∷ a) b (suc c) hc ha hb za zb = elim ha [ ]
sub_loop-eq-propagate (suc n) [] b (suc c) hc ha hb za zb = elim ha [ ]
sub_loop-eq-propagate (suc n) (x ∷ a) [] (suc c) hc ha hb za zb = elim hb [ ]
sub_loop-eq-propagate (suc n) (x ∷ a) (y ∷ b) (suc c) hc ha hb za zb =
    let again = sub_loop-eq-propagate n a b 1 (omega arith) ha.1 hb.1 za.1 zb.1 in
    let one : c ≡ 0 = omega arith in rw (one, za.0, zb.0) (step again)
  where
    step :
        propagate_borrow (zeros n) 1 ≡ mag_sub_loop a b 1
        → propagate_borrow (0 ∷ zeros n) 1 ≡ mag_sub_loop (0 ∷ a) (0 ∷ b) 1
    step e = unfold sub_limb propagate_borrow in rw (← e) refl

sub_short_loop-eq :
    (k n : ℕ) (a b : List ℕ) (c : ℕ)
    → c ≤ 1
    → IsLimbs n a
    → IsLimbs n b
    → ZeroFrom k a
    → ZeroFrom k b
    → mag_sub_short_loop k (zeros n) a b c ≡ mag_sub_loop a b c
unfolding mag_sub_short_loop mag_sub_loop
sub_short_loop-eq zero n a b c hc ha hb za zb = sub_loop-eq-propagate n a b c hc ha hb za zb
sub_short_loop-eq (suc k) zero [] [] c hc ha hb za zb = refl
sub_short_loop-eq (suc k) zero [] (y ∷ b) c hc ha hb za zb = elim hb [ ]
sub_short_loop-eq (suc k) zero (x ∷ a) b c hc ha hb za zb = elim ha [ ]
sub_short_loop-eq (suc k) (suc n) [] b c hc ha hb za zb = elim ha [ ]
sub_short_loop-eq (suc k) (suc n) (x ∷ a) [] c hc ha hb za zb = elim hb [ ]
sub_short_loop-eq (suc k) (suc n) (x ∷ a) (y ∷ b) c hc ha hb za zb =
    let borrow = (sub_limb_value x y c ha.0 hb.0 hc).2 in
    rw (sub_short_loop-eq k n a b (sub_limb x y c).1 borrow ha.1 hb.1 za zb)

-- On operands with no limb at or past `la` and `lb`, the length-bounded subtraction returns what the
-- full-width one does, the borrow included.
pub mag_sub_short-eq-mag_sub :
    (n : ℕ) (a b : List ℕ) (la lb : ℕ)
    → IsLimbs n a
    → IsLimbs n b
    → ZeroFrom la a
    → ZeroFrom lb b
    → mag_sub_short a b la lb ≡ mag_sub a b
unfolding mag_sub_short mag_sub
mag_sub_short-eq-mag_sub n a b la lb ha hb za zb = rw (length-limbs n a ha) (
    sub_short_loop-eq (max la lb) n a b 0 (omega arith) ha hb
      (ZeroFrom-le la (max la lb) a (omega arith) za)
      (ZeroFrom-le lb (max la lb) b (omega arith) zb))
