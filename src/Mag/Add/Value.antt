-- ===== src/Mag/Add/Value.antt =====
-- The sum of two magnitudes, with the carry out of the top limb.
use sqisign_selkie.Prelude.Modulo.{mod_once}
use sqisign_selkie.Prelude.{
  ℕ, zero, suc, ◌+◌, ◌-◌, ◌*◌, ◌≤◌, ◌<◌, ◌≡◌, ◌%◌, sym, ◌∙◌, arith, List, [], ◌∷◌, ltb,
  if◌then◌else◌,
}
use sqisign_selkie.Word.{radix, IsWord}
use sqisign_selkie.Limbs.{IsLimbs, val, cap}
use sqisign_selkie.Limbs.Laws.{val-lt, cap_pos}
use sqisign_selkie.Mag.Add.{add_limb, mag_add_loop, mag_add}

pub add_limb_value :
    (x y c : ℕ)
    → IsWord x
    → IsWord y
    → c ≤ 1
    → ((add_limb x y c).0 + radix * (add_limb x y c).1 ≡ x + y + c)
      × IsWord (add_limb x y c).0
      × ((add_limb x y c).1 ≤ 1)
unfolding add_limb
add_limb_value x y c hx hy hc = ground arith

mag_add_loop_value :
    (n : ℕ) (a b : List ℕ) (c : ℕ)
    → IsLimbs n a
    → IsLimbs n b
    → c ≤ 1
    → (val (mag_add_loop a b c).0 + cap n * (mag_add_loop a b c).1 ≡ val a + val b + c)
      × IsLimbs n (mag_add_loop a b c).0
      × ((mag_add_loop a b c).1 ≤ 1)
unfolding mag_add_loop
mag_add_loop_value zero [] [] c ha hb hc = (omega arith, tt, hc)
mag_add_loop_value zero [] (y ∷ b) c ha hb hc = elim hb [ ]
mag_add_loop_value zero (x ∷ a) b c ha hb hc = elim ha [ ]
mag_add_loop_value (suc n) [] b c ha hb hc = elim ha [ ]
mag_add_loop_value (suc n) (x ∷ a) [] c ha hb hc = elim hb [ ]
mag_add_loop_value (suc n) (x ∷ a) (y ∷ b) c ha hb hc =
    let (sum, word, carry) = add_limb_value x y c ha.0 hb.0 hc in
    let (value, limbs, out) = mag_add_loop_value n a b (add_limb x y c).1 ha.1 hb.1 carry in
    (omega arith, (word, limbs), out)

-- The limbs of the sum and the carry hold the true sum.
pub mag_add_value :
    (n : ℕ) (a b : List ℕ)
    → IsLimbs n a
    → IsLimbs n b
    → (val (mag_add a b).0 + cap n * (mag_add a b).1 ≡ val a + val b)
      × IsLimbs n (mag_add a b).0
      × ((mag_add a b).1 ≤ 1)
unfolding mag_add
mag_add_value n a b ha hb = ground (arith, mag_add_loop_value n a b 0 ha hb (omega arith))

sum_of :
    (q r a b c : ℕ)
    → r < c
    → r + c * q ≡ a + b
    → q ≤ 1
    → r ≡ (if ltb (a + b) c then a + b else a + b - c)
sum_of zero r a b c hr e h = ground arith
sum_of (suc zero) r a b c hr e h = ground arith
sum_of (suc (suc q)) r a b c hr e h = absurd (omega arith)

-- The limbs are the sum, less the bound where it overflows.
pub mag_add-val :
    (n : ℕ) (a b : List ℕ)
    → IsLimbs n a
    → IsLimbs n b
    → val (mag_add a b).0
      ≡ (if ltb (val a + val b) (cap n) then val a + val b else val a + val b - cap n)
mag_add-val n a b ha hb =
    let (value, limbs, out) = mag_add_value n a b ha hb in
    sum_of (mag_add a b).1 (val (mag_add a b).0) (val a) (val b) (cap n)
      (val-lt n (mag_add a b).0 limbs) value out

-- The limbs are the sum modulo the bound.
pub mag_add-mod :
    (n : ℕ) (a b : List ℕ)
    → IsLimbs n a
    → IsLimbs n b
    → val (mag_add a b).0 ≡ (val a + val b) % cap n
mag_add-mod n a b ha hb =
    mag_add-val n a b ha hb
    ∙ sym
        (mod_once (val a + val b) (cap n) (cap_pos n) (omega (arith, val-lt n a ha, val-lt n b hb)))
