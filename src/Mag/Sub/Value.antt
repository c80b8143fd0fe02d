-- ===== src/Mag/Sub/Value.antt =====
-- The difference of two magnitudes, with the borrow out of the top limb.
use native.Mathlib.Nat.{mod-eq_of_lt}
use sqisign_selkie.Prelude.{
  ℕ, zero, suc, ◌+◌, ◌-◌, ltb, if◌then◌else◌, ◌*◌, ◌≤◌, ◌<◌, ◌≡◌, ◌%◌, ap, arith, List, [], ◌∷◌,
}
use sqisign_selkie.Word.{radix, IsWord, as_u64}
use sqisign_selkie.Limbs.{IsLimbs, val, cap, zeros}
use sqisign_selkie.Limbs.Laws.{val-lt, val_injective, length-limbs, zeros-IsLimbs, val-zeros}
use sqisign_selkie.Mag.Sub.{sub_limb, mag_sub_loop, mag_sub, mag_negate}

pub sub_limb_value :
    (x y c : ℕ)
    → IsWord x
    → IsWord y
    → c ≤ 1
    → ((sub_limb x y c).0 + y + c ≡ x + radix * (sub_limb x y c).1)
      × IsWord (sub_limb x y c).0
      × ((sub_limb x y c).1 ≤ 1)
unfolding sub_limb
sub_limb_value x y c hx hy hc = ground arith

mag_sub_loop_value :
    (n : ℕ) (a b : List ℕ) (c : ℕ)
    → IsLimbs n a
    → IsLimbs n b
    → c ≤ 1
    → (val (mag_sub_loop a b c).0 + val b + c ≡ val a + cap n * (mag_sub_loop a b c).1)
      × IsLimbs n (mag_sub_loop a b c).0
      × ((mag_sub_loop a b c).1 ≤ 1)
unfolding mag_sub_loop
mag_sub_loop_value zero [] [] c ha hb hc = (omega arith, tt, hc)
mag_sub_loop_value zero [] (y ∷ b) c ha hb hc = elim hb [ ]
mag_sub_loop_value zero (x ∷ a) b c ha hb hc = elim ha [ ]
mag_sub_loop_value (suc n) [] b c ha hb hc = elim ha [ ]
mag_sub_loop_value (suc n) (x ∷ a) [] c ha hb hc = elim hb [ ]
mag_sub_loop_value (suc n) (x ∷ a) (y ∷ b) c ha hb hc =
    let (sum, word, borrow) = sub_limb_value x y c ha.0 hb.0 hc in
    let (value, limbs, out) = mag_sub_loop_value n a b (sub_limb x y c).1 ha.1 hb.1 borrow in
    (omega arith, (word, limbs), out)

-- The limbs of the difference and the borrow hold the true difference.
pub mag_sub_value :
    (n : ℕ) (a b : List ℕ)
    → IsLimbs n a
    → IsLimbs n b
    → (val (mag_sub a b).0 + val b ≡ val a + cap n * (mag_sub a b).1)
      × IsLimbs n (mag_sub a b).0
      × ((mag_sub a b).1 ≤ 1)
unfolding mag_sub
mag_sub_value n a b ha hb = ground (arith, mag_sub_loop_value n a b 0 ha hb (omega arith))

borrow_of : (q r a b c : ℕ) → r < c → b < c → r + b ≡ a + c * q → q ≤ 1 → q ≡ as_u64 (ltb a b)
borrow_of zero r a b c hr hb e h = ground arith
borrow_of (suc zero) r a b c hr hb e h = ground arith
borrow_of (suc (suc q)) r a b c hr hb e h = absurd (omega arith)

-- The borrow is the order of the operands.
pub mag_sub-borrow :
    (n : ℕ) (a b : List ℕ)
    → IsLimbs n a
    → IsLimbs n b
    → (mag_sub a b).1 ≡ as_u64 (ltb (val a) (val b))
mag_sub-borrow n a b ha hb =
    let (value, limbs, out) = mag_sub_value n a b ha hb in
    borrow_of (mag_sub a b).1 (val (mag_sub a b).0) (val a) (val b) (cap n)
      (val-lt n (mag_sub a b).0 limbs) (val-lt n b hb) value out

difference_of :
    (q r a b c : ℕ)
    → r < c
    → a < c
    → b < c
    → r + b ≡ a + c * q
    → q ≤ 1
    → r ≡ (if ltb a b then a + c - b else a - b)
difference_of zero r a b c hr ha hb e h = ground arith
difference_of (suc zero) r a b c hr ha hb e h = ground arith
difference_of (suc (suc q)) r a b c hr ha hb e h = absurd (omega arith)

-- The limbs are the difference, with the bound added where it borrows.
pub mag_sub-val :
    (n : ℕ) (a b : List ℕ)
    → IsLimbs n a
    → IsLimbs n b
    → val (mag_sub a b).0 ≡ (if ltb (val a) (val b) then val a + cap n - val b else val a - val b)
mag_sub-val n a b ha hb =
    let (value, limbs, out) = mag_sub_value n a b ha hb in
    difference_of (mag_sub a b).1 (val (mag_sub a b).0) (val a) (val b) (cap n)
      (val-lt n (mag_sub a b).0 limbs) (val-lt n a ha) (val-lt n b hb) value out

mag_negate-eq : (n : ℕ) (x : List ℕ) → IsLimbs n x → mag_negate x ≡ (mag_sub (zeros n) x).0
unfolding mag_negate
mag_negate-eq n x h = ap (λ k. (mag_sub (zeros k) x).0) (length-limbs n x h)

mag_negate-val : (n : ℕ) (x : List ℕ) → IsLimbs n x → 0 < val x → val (mag_negate x) ≡ cap n - val x
mag_negate-val n x h pos =
    rw (mag_negate-eq n x h)
      (ground (arith, mag_sub-val n (zeros n) x (zeros-IsLimbs n) h, val-zeros n))

pub mag_negate-IsLimbs : (n : ℕ) (x : List ℕ) → IsLimbs n x → IsLimbs n (mag_negate x)
mag_negate-IsLimbs n x h =
    rw (mag_negate-eq n x h) ((mag_sub_value n (zeros n) x (zeros-IsLimbs n) h).1)

-- Where the subtraction borrows, its negation is the reverse difference.
pub mag_negate-mag_sub :
    (n : ℕ) (a b : List ℕ)
    → IsLimbs n a
    → IsLimbs n b
    → val a < val b
    → mag_negate (mag_sub a b).0 ≡ (mag_sub b a).0
mag_negate-mag_sub n a b ha hb h =
    let forward = mag_sub-val n a b ha hb in
    let backward = mag_sub-val n b a hb ha in
    let words = (mag_sub_value n a b ha hb).1 in
    let bound = val-lt n b hb in
    let value = mag_negate-val n (mag_sub a b).0 words (ground arith) in
    let limbs = mag_negate-IsLimbs n (mag_sub a b).0 words in
    val_injective n (mag_negate (mag_sub a b).0) (mag_sub b a).0 limbs (mag_sub_value n b a hb ha).1
      (ground arith)

-- Without a borrow the limbs are the difference, which needs no reduction.
pub mag_sub-mod :
    (n : ℕ) (a b : List ℕ)
    → IsLimbs n a
    → IsLimbs n b
    → val b ≤ val a
    → val (mag_sub a b).0 ≡ (val a - val b) % cap n
mag_sub-mod n a b ha hb h =
    let value = mag_sub-val n a b ha hb in
    let bound : val a - val b < cap n = omega (arith, val-lt n a ha) in
    rw (mod-eq_of_lt bound) (ground arith)

pub mag_negate_value :
    (n : ℕ) (x : List ℕ)
    → IsLimbs n x
    → val (mag_negate x)
      ≡ (if ltb (cap n - val x) (cap n) then cap n - val x else cap n - val x - cap n)
mag_negate_value n x h =
    rw (mag_negate-eq n x h)
      (ground (arith, mag_sub-val n (zeros n) x (zeros-IsLimbs n) h, val-zeros n, val-lt n x h))
