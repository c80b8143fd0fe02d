-- ===== src/BigInt/Mac/Value.antt =====
-- The final difference of the two totals, and with it the signed sum of the terms.
use native.Mathlib.Nat.{zero-add}
use sqisign_selkie.Prelude.Modulo.{low_is_mod}
use sqisign_selkie.Prelude.{
  ℕ, zero, suc, ◌+◌, ◌-◌, ◌*◌, ◌%◌, ◌≤◌, ◌<◌, ◌≡◌, refl, ap, ap₂, ◌∙◌, arith, Bool, true, false,
  ◌||◌, List, [], ◌∷◌, length, ltb, if◌then◌else◌, Bool-cases, ltb→lt, inl, inr,
}
use sqisign_selkie.Int.{ℤ, pos, signed, sub_ℕ, ◌+ℤ◌}
use sqisign_selkie.Word.{radix, as_u64, wrapping_sub}
use sqisign_selkie.Limbs.{IsLimbs, val, cap, zeros}
use sqisign_selkie.Limbs.Laws.{val-lt, zeros-IsLimbs, val-zeros}
use sqisign_selkie.Mag.Sub.{mag_sub, mag_negate}
use sqisign_selkie.Mag.Sub.Value.{
  mag_sub_value, mag_sub-borrow, mag_sub-val, mag_negate-IsLimbs, mag_negate_value,
}
use sqisign_selkie.Mag.Compare.Order.{top_decides}
use sqisign_selkie.Mag.Compare.{mag_select}
use sqisign_selkie.Mag.Compare.Value.{mag_select-zero, mag_select-one}
use sqisign_selkie.BigInt.{BigInt, IsBigInt, IsCanonical, to_ℤ, truncated, canonicalize}
use sqisign_selkie.BigInt.Sign.{canonicalize_lem, truncated-signed}
use sqisign_selkie.BigInt.Mac.{Totals, mac_loop, mac_finalize, mac_sum}
use sqisign_selkie.BigInt.Mac.Total.{IsTotals, pos_sum, neg_sum, AllBigInt, mac_loop-IsTotals}

-- The borrow of the wide subtraction.
abbrev below : Totals → Bool
below m =
    ltb m.pos_hi m.neg_hi
    || ltb (wrapping_sub m.pos_hi m.neg_hi) (as_u64 (ltb (val m.pos) (val m.neg)))

selected :
    (n : ℕ) (m : Totals)
    → IsLimbs n m.pos
    → IsLimbs n m.neg
    → (less : Bool)
    → canonicalize
        (1 - (1 - as_u64 less))
        (mag_select (mag_negate (mag_sub m.pos m.neg).0) (mag_sub m.pos m.neg).0 (1 - as_u64 less))
      ≡ (if less
          then canonicalize 1 (mag_negate (mag_sub m.pos m.neg).0)
          else canonicalize 0 (mag_sub m.pos m.neg).0)
selected n m hp hq true =
    let words = (mag_sub_value n m.pos m.neg hp hq).1 in
    ap (canonicalize 1) (mag_select-zero n _ _ (mag_negate-IsLimbs n _ words) words)
selected n m hp hq false =
    let words = (mag_sub_value n m.pos m.neg hp hq).1 in
    ap (canonicalize 0) (mag_select-one n _ _ (mag_negate-IsLimbs n _ words) words)

mac_finalize-canonicalize :
    (n : ℕ) (m : Totals)
    → IsLimbs n m.pos
    → IsLimbs n m.neg
    → mac_finalize m ≡ (
        if below m
        then canonicalize 1 (mag_negate (mag_sub m.pos m.neg).0)
        else canonicalize 0 (mag_sub m.pos m.neg).0)
unfolding mac_finalize canonicalize
mac_finalize-canonicalize n m hp hq =
    rw (mag_sub-borrow n m.pos m.neg hp hq) (selected n m hp hq (below m))

order_of :
    (p q h g c : ℕ)
    → p < c
    → q < c
    → h < radix
    → g < radix
    → (ltb h g || ltb (wrapping_sub h g) (as_u64 (ltb p q))) ≡ ltb (p + c * h) (q + c * g)
order_of p q h g c hp hq hh hg = ground (arith, top_decides h g p q c hq, top_decides g h q p c hp)

-- The low limbs of a wide difference, on each side of the order.
forward_of :
    (k p q g c d : ℕ)
    → p < c
    → q < c
    → d ≡ (if ltb p q then p + c - q else p - q)
    → q + c * g ≤ p + c * (g + k)
    → d ≡ (p + c * (g + k) - (q + c * g)) % c
forward_of zero p q g c d hp hq e le = low_is_mod d 0 c _ (ground arith) (ground arith)
forward_of (suc k) p q g c d hp hq e le = elim (Bool-cases (ltb p q)) [
  | inl less ↦ low_is_mod d k c _ (ground arith) (ground arith)
  | inr more ↦ low_is_mod d (suc k) c _ (ground arith) (ground arith)
]

backward_of :
    (k p q h c d r : ℕ)
    → p < c
    → q < c
    → d ≡ (if ltb p q then p + c - q else p - q)
    → r ≡ (if ltb (c - d) c then c - d else c - d - c)
    → p + c * h ≤ q + c * (h + k)
    → r ≡ (q + c * (h + k) - (p + c * h)) % c
backward_of zero p q h c d r hp hq e f le = low_is_mod r 0 c _ (ground arith) (ground arith)
backward_of (suc k) p q h c d r hp hq e f le = elim (Bool-cases (ltb q p)) [
  | inl less ↦ low_is_mod r k c _ (ground arith) (ground arith)
  | inr more ↦ low_is_mod r (suc k) c _ (ground arith) (ground arith)
]

sub_ℕ-more : (p q : ℕ) → q ≤ p → sub_ℕ p q ≡ signed 0 (p - q)
sub_ℕ-more p q h = ground arith

sub_ℕ-less : (p q : ℕ) → p < q → sub_ℕ p q ≡ signed 1 (q - p)
sub_ℕ-less p q h = ground arith

-- A bound that lies below another is what is left after its own difference.
forward_low :
    (p q h g c d : ℕ)
    → p < c
    → q < c
    → d ≡ (if ltb p q then p + c - q else p - q)
    → q + c * g ≤ p + c * h
    → d ≡ (p + c * h - (q + c * g)) % c
forward_low p q h g c d hp hq e le =
    let above : g ≤ h = ground (arith, top_decides g h q p c hp) in
    let split : g + (h - g) ≡ h = omega arith in
    rw split at (forward_of (h - g) p q g c d hp hq e (rw split le))

backward_low :
    (p q h g c d r : ℕ)
    → p < c
    → q < c
    → d ≡ (if ltb p q then p + c - q else p - q)
    → r ≡ (if ltb (c - d) c then c - d else c - d - c)
    → p + c * h ≤ q + c * g
    → r ≡ (q + c * g - (p + c * h)) % c
backward_low p q h g c d r hp hq e f le =
    let above : h ≤ g = ground (arith, top_decides h g p q c hq) in
    let split : h + (g - h) ≡ g = omega arith in
    rw split at (backward_of (g - h) p q h c d r hp hq e f (rw split le))

mac_finalize_value :
    (n k p q : ℕ) (m : Totals)
    → IsTotals n k p q m
    → k < radix
    → (to_ℤ (mac_finalize m) ≡ truncated n (sub_ℕ p q))
      × IsBigInt n (mac_finalize m)
      × IsCanonical (mac_finalize m)
mac_finalize_value n k p q m hm room = elim (Bool-cases (ltb p q)) [
  | inl less ↦
      let words = mag_negate-IsLimbs n (mag_sub m.pos m.neg).0 diff_words in
      let (value, valid, canonical) =
        canonicalize_lem n 1 (mag_negate (mag_sub m.pos m.neg).0) (omega arith) words in
      rw (mac_finalize-canonicalize n m hm.pos_words hm.neg_words, order ∙ less)
        (value ∙ backward (ltb→lt p q less), valid, canonical)
  | inr more ↦
      let (value, valid, canonical) =
        canonicalize_lem n 0 (mag_sub m.pos m.neg).0 (omega arith) diff_words in
      rw (mac_finalize-canonicalize n m hm.pos_words hm.neg_words, order ∙ more)
        (value ∙ forward (ground arith), valid, canonical)
]
  where
    diff_words : IsLimbs n (mag_sub m.pos m.neg).0
    diff_words = (mag_sub_value n m.pos m.neg hm.pos_words hm.neg_words).1

    order : below m ≡ ltb p q
    order =
        order_of (val m.pos) (val m.neg) m.pos_hi m.neg_hi (cap n) (val-lt n m.pos hm.pos_words)
          (val-lt n m.neg hm.neg_words) (omega (arith, hm.pos_room)) (omega (arith, hm.neg_room))
        ∙ ap₂ ltb hm.pos_value hm.neg_value

    diff_value : val (mag_sub m.pos m.neg).0 ≡ (
        if ltb (val m.pos) (val m.neg)
        then val m.pos + cap n - val m.neg
        else val m.pos - val m.neg)
    diff_value = mag_sub-val n m.pos m.neg hm.pos_words hm.neg_words

    forward : q ≤ p → signed 0 (val (mag_sub m.pos m.neg).0) ≡ truncated n (sub_ℕ p q)
    forward le =
        rw (sub_ℕ-more p q le, truncated-signed n 0 (p - q))
          (ap (signed 0) (
            forward_low (val m.pos) (val m.neg) m.pos_hi m.neg_hi (cap n) _
              (val-lt n m.pos hm.pos_words) (val-lt n m.neg hm.neg_words) diff_value
              (omega (arith, hm.pos_value, hm.neg_value))
            ∙ ap₂ (λ a b. (a - b) % cap n) hm.pos_value hm.neg_value))

    backward : p < q → signed 1 (val (mag_negate (mag_sub m.pos m.neg).0)) ≡ truncated n (sub_ℕ p q)
    backward lt =
        rw (sub_ℕ-less p q lt, truncated-signed n 1 (q - p))
          (ap (signed 1) (
            backward_low (val m.pos) (val m.neg) m.pos_hi m.neg_hi (cap n) _ _
              (val-lt n m.pos hm.pos_words) (val-lt n m.neg hm.neg_words) diff_value
              (mag_negate_value n (mag_sub m.pos m.neg).0 diff_words)
              (omega (arith, hm.pos_value, hm.neg_value))
            ∙ ap₂ (λ a b. (b - a) % cap n) hm.pos_value hm.neg_value))

-- The signed sum of the terms.
abbrev pub sum_ℤ : List BigInt → ℤ
sum_ℤ [] = pos 0
sum_ℤ (t ∷ terms) = to_ℤ t +ℤ sum_ℤ terms

sub_ℕ-add : (a b c d : ℕ) → sub_ℕ (a + c) (b + d) ≡ sub_ℕ a b +ℤ sub_ℕ c d
unfolding ◌+ℤ◌
sub_ℕ-add a b c d = ground arith

magnitudes : (s m : ℕ) → s ≤ 1 → signed s m ≡ sub_ℕ (m * (1 - s)) (m * s)
magnitudes zero m h = ground arith
magnitudes (suc zero) m h = ap₂ sub_ℕ (omega arith) (omega arith)
magnitudes (suc (suc s)) m h = absurd (omega arith)

sums-eq-sum_ℤ :
    (n : ℕ) (terms : List BigInt)
    → AllBigInt n terms
    → sub_ℕ (pos_sum terms) (neg_sum terms) ≡ sum_ℤ terms
sums-eq-sum_ℤ n [] h = refl
sums-eq-sum_ℤ n (t ∷ terms) h =
    rw (magnitudes t.sign (val t.limbs) h.0.flag, ← sums-eq-sum_ℤ n terms h.1) (sub_ℕ-add _ _ _ _)

-- `mac_sum` of fewer than 2 ^ 64 values of one width is the canonical form of their signed sum, with
-- the magnitude truncated to `N` limbs, whatever the partial sums are.
pub mac_sum_value :
    (n : ℕ) (terms : List BigInt)
    → AllBigInt n terms
    → length terms < radix
    → (to_ℤ (mac_sum n terms) ≡ truncated n (sum_ℤ terms))
      × IsBigInt n (mac_sum n terms)
      × IsCanonical (mac_sum n terms)
unfolding mac_sum
mac_sum_value n terms h room =
    rw
      (← (
        ap₂ sub_ℕ (zero-add (pos_sum terms)) (zero-add (neg_sum terms)) ∙ sums-eq-sum_ℤ n terms h))
      (mac_finalize_value n (length terms + 0) (0 + pos_sum terms) (0 + neg_sum terms)
        (mac_loop terms start) totals (omega arith))
  where
    start : Totals
    start = record { pos = zeros n; pos_hi = 0; neg = zeros n; neg_hi = 0 }

    totals :
        IsTotals n (length terms + 0) (0 + pos_sum terms) (0 + neg_sum terms) (mac_loop terms start)
    totals =
        mac_loop-IsTotals n 0 0 0 terms start
          (record {
            pos_words = zeros-IsLimbs n;
            neg_words = zeros-IsLimbs n;
            pos_value = omega (arith, val-zeros n);
            neg_value = omega (arith, val-zeros n);
            pos_room = omega arith;
            neg_room = omega arith;
          })
          h (omega arith)
