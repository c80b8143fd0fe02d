-- ===== src/BigInt/Add/Value.antt =====
-- Signed addition on the integers that the values stand for, and the variable-time paths.
use sqisign_selkie.Prelude.{
  ℕ, zero, suc, ◌+◌, ◌-◌, ◌*◌, ◌≤◌, ◌<◌, ◌≡◌, refl, sym, ap, ◌∙◌, arith, bit_xor, true, false, List,
  length, leb, ltb, ◌==◌, if◌then◌else◌, max, Bool-cases, if_same, inl, inr,
}
use sqisign_selkie.Int.{signed, ◌+ℤ◌, ◌-ℤ◌, +ℤ-neg}
use sqisign_selkie.Limbs.{IsLimbs, val, ZeroFrom}
use sqisign_selkie.Mag.Add.{mag_add}
use sqisign_selkie.Mag.Add.Value.{mag_add_value, mag_add-mod}
use sqisign_selkie.Mag.Add.Short.{mag_add_short-eq-mag_add}
use sqisign_selkie.Mag.Sub.{mag_sub}
use sqisign_selkie.Mag.Sub.Value.{mag_sub_value, mag_sub-mod, mag_sub-borrow}
use sqisign_selkie.Mag.Sub.Short.{mag_sub_short-eq-mag_sub}
use sqisign_selkie.Mag.Compare.{mag_effective_len}
use sqisign_selkie.Mag.Compare.Length.{mag_effective_len-ZeroFrom}
use sqisign_selkie.BigInt.{
  BigInt, IsBigInt, IsCanonical, to_ℤ, truncated, canonicalize, wrapping_neg,
}
use sqisign_selkie.BigInt.Sign.{
  canonicalize_lem, canonicalize_valid, truncated-signed, wrapping_neg_lem,
}
use sqisign_selkie.BigInt.Add.{ct_add, vt_add, vt_add_short, ct_sub, vt_sub}
use sqisign_selkie.BigInt.Add.Cases.{add_by_cases, ct_add-eq}

module _ (n : ℕ) (a b : List ℕ) (ha : IsLimbs n a) (hb : IsLimbs n b) where
  sum_words : IsLimbs n (mag_add a b).0
  sum_words = (mag_add_value n a b ha hb).1

  forward_words : IsLimbs n (mag_sub a b).0
  forward_words = (mag_sub_value n a b ha hb).1

  backward_words : IsLimbs n (mag_sub b a).0
  backward_words = (mag_sub_value n b a hb ha).1

  add_by_cases_valid :
      (s t : ℕ)
      → s ≤ 1
      → t ≤ 1
      → IsBigInt n (add_by_cases s t a b) × IsCanonical (add_by_cases s t a b)
  unfolding add_by_cases
  add_by_cases_valid s t hs ht = elim (Bool-cases (bit_xor s t == 0)) [
    | inl same ↦ rw same (canonicalize_valid n s (mag_add a b).0 hs sum_words)
    | inr differ ↦ elim (Bool-cases (ltb (val a) (val b))) [
      | inl less ↦ rw (differ, less) (canonicalize_valid n t (mag_sub b a).0 ht backward_words)
      | inr more ↦ rw (differ, more) (canonicalize_valid n s (mag_sub a b).0 hs forward_words)
    ]
  ]

-- Signed magnitudes: equal signs add up, different signs leave the difference.
signed-add_same : (s a b : ℕ) → signed s a +ℤ signed s b ≡ signed s (a + b)
unfolding ◌+ℤ◌
signed-add_same zero a b = ground arith
signed-add_same (suc s) a b = ground arith

signed-add_less : (s t a b : ℕ) → s + t ≡ 1 → a < b → signed s a +ℤ signed t b ≡ signed t (b - a)
unfolding ◌+ℤ◌
signed-add_less zero (suc zero) a b e h = ground arith
signed-add_less (suc zero) zero a b e h = ground arith
signed-add_less zero zero a b e h = absurd (omega arith)
signed-add_less zero (suc (suc t)) a b e h = absurd (omega arith)
signed-add_less (suc zero) (suc t) a b e h = absurd (omega arith)
signed-add_less (suc (suc s)) t a b e h = absurd (omega arith)

signed-add_more : (s t a b : ℕ) → s + t ≡ 1 → b ≤ a → signed s a +ℤ signed t b ≡ signed s (a - b)
unfolding ◌+ℤ◌
signed-add_more zero (suc zero) a b e h = ground arith
signed-add_more (suc zero) zero a b e h = ground arith
signed-add_more zero zero a b e h = absurd (omega arith)
signed-add_more zero (suc (suc t)) a b e h = absurd (omega arith)
signed-add_more (suc zero) (suc t) a b e h = absurd (omega arith)
signed-add_more (suc (suc s)) t a b e h = absurd (omega arith)

flags_equal : (s t : ℕ) → s ≤ 1 → t ≤ 1 → (bit_xor s t == 0) ≡ true → t ≡ s
flags_equal zero zero hs ht e = refl
flags_equal zero (suc zero) hs ht e = cc
flags_equal (suc zero) zero hs ht e = cc
flags_equal (suc zero) (suc zero) hs ht e = refl
flags_equal zero (suc (suc t)) hs ht e = absurd (omega arith)
flags_equal (suc zero) (suc (suc t)) hs ht e = absurd (omega arith)
flags_equal (suc (suc s)) t hs ht e = absurd (omega arith)

flags_differ : (s t : ℕ) → s ≤ 1 → t ≤ 1 → (bit_xor s t == 0) ≡ false → s + t ≡ 1
flags_differ zero zero hs ht e = cc
flags_differ zero (suc zero) hs ht e = refl
flags_differ (suc zero) zero hs ht e = refl
flags_differ (suc zero) (suc zero) hs ht e = cc
flags_differ zero (suc (suc t)) hs ht e = absurd (omega arith)
flags_differ (suc zero) (suc (suc t)) hs ht e = absurd (omega arith)
flags_differ (suc (suc s)) t hs ht e = absurd (omega arith)

module _ (n : ℕ) (a b : List ℕ) (ha : IsLimbs n a) (hb : IsLimbs n b) where
  add_by_cases_value :
      (s t : ℕ)
      → s ≤ 1
      → t ≤ 1
      → to_ℤ (add_by_cases s t a b) ≡ truncated n (signed s (val a) +ℤ signed t (val b))
  unfolding add_by_cases
  add_by_cases_value s t hs ht = elim (Bool-cases (bit_xor s t == 0)) [
    | inl same ↦
        rw
          (
            same,
            flags_equal s t hs ht same,
            signed-add_same s (val a) (val b),
            truncated-signed n s (val a + val b),
            ← mag_add-mod n a b ha hb,
          )
          ((canonicalize_lem n s (mag_add a b).0 hs (mag_add_value n a b ha hb).1).0)
    | inr differ ↦ elim (Bool-cases (ltb (val a) (val b))) [
      | inl less ↦
          rw
            (
              differ,
              less,
              signed-add_less s t (val a) (val b) (flags_differ s t hs ht differ) (ground arith),
              truncated-signed n t (val b - val a),
              ← mag_sub-mod n b a hb ha (ground arith),
            )
            ((canonicalize_lem n t (mag_sub b a).0 ht (mag_sub_value n b a hb ha).1).0)
      | inr more ↦
          rw
            (
              differ,
              more,
              signed-add_more s t (val a) (val b) (flags_differ s t hs ht differ) (ground arith),
              truncated-signed n s (val a - val b),
              ← mag_sub-mod n a b ha hb (ground arith),
            )
            ((canonicalize_lem n s (mag_sub a b).0 hs (mag_sub_value n a b ha hb).1).0)
    ]
  ]

-- `ct_add` returns the canonical form of the sum of the integers, with the magnitude truncated to
-- `N` limbs; the width is kept.
pub ct_add_value :
    (n : ℕ) (x y : BigInt)
    → IsBigInt n x
    → IsBigInt n y
    → (to_ℤ (ct_add x y) ≡ truncated n (to_ℤ x +ℤ to_ℤ y))
      × IsBigInt n (ct_add x y)
      × IsCanonical (ct_add x y)
ct_add_value n x y hx hy =
    let (valid, canonical) =
      add_by_cases_valid n x.limbs y.limbs hx.words hy.words x.sign y.sign hx.flag hy.flag in
    let value =
      add_by_cases_value n x.limbs y.limbs hx.words hy.words x.sign y.sign hx.flag hy.flag in
    rw (ct_add-eq n x y hx hy) (value, valid, canonical)

vt_add-gate :
    (x y : BigInt) (la lb : ℕ)
    → mag_effective_len x.limbs ≡ la
    → mag_effective_len y.limbs ≡ lb
    → vt_add x y ≡ (
        if leb (length x.limbs) (max la lb * 4)
        then ct_add x y
        else canonicalize (vt_add_short x y la lb).0 (vt_add_short x y la lb).1)
unfolding vt_add canonicalize
vt_add-gate x y la lb ea eb = rw (ea, eb) refl

vt_add_short-eq :
    (n : ℕ) (x y : BigInt) (la lb : ℕ)
    → IsBigInt n x
    → IsBigInt n y
    → ZeroFrom la x.limbs
    → ZeroFrom lb y.limbs
    → canonicalize (vt_add_short x y la lb).0 (vt_add_short x y la lb).1
      ≡ add_by_cases x.sign y.sign x.limbs y.limbs
unfolding vt_add_short add_by_cases
vt_add_short-eq n x y la lb hx hy zx zy =
    rw
      (
        mag_add_short-eq-mag_add n x.limbs y.limbs la lb hx.words hy.words zx zy,
        mag_sub_short-eq-mag_sub n x.limbs y.limbs la lb hx.words hy.words zx zy,
        mag_sub_short-eq-mag_sub n y.limbs x.limbs lb la hy.words hx.words zy zx,
        mag_sub-borrow n x.limbs y.limbs hx.words hy.words,
      )
      (ground arith)

-- On every pair of values `vt_add` returns what `ct_add` does.
pub vt_add-eq-ct_add :
    (n : ℕ) (x y : BigInt) → IsBigInt n x → IsBigInt n y → vt_add x y ≡ ct_add x y
vt_add-eq-ct_add n x y hx hy =
    rw (vt_add-gate x y (mag_effective_len x.limbs) (mag_effective_len y.limbs) refl refl) (
      if_same
        (leb (length x.limbs) (max (mag_effective_len x.limbs) (mag_effective_len y.limbs) * 4))
        (vt_add_short-eq n x y (mag_effective_len x.limbs) (mag_effective_len y.limbs) hx hy
            (mag_effective_len-ZeroFrom x.limbs) (mag_effective_len-ZeroFrom y.limbs)
          ∙ sym (ct_add-eq n x y hx hy)))

-- `ct_sub` and `vt_sub` agree on every pair of values; the result is the canonical form of the
-- difference of the integers, with the magnitude truncated to `N` limbs.
pub sub_value :
    (n : ℕ) (x y : BigInt)
    → IsBigInt n x
    → IsBigInt n y
    → (vt_sub x y ≡ ct_sub x y)
      × (to_ℤ (ct_sub x y) ≡ truncated n (to_ℤ x -ℤ to_ℤ y))
      × IsBigInt n (ct_sub x y)
      × IsCanonical (ct_sub x y)
unfolding ct_sub vt_sub
sub_value n x y hx hy =
    let (flipped, valid, _) = wrapping_neg_lem n y hy in
    let (value, words, canonical) = ct_add_value n x (wrapping_neg y) hx valid in
    let e : to_ℤ x +ℤ to_ℤ (wrapping_neg y) ≡ to_ℤ x -ℤ to_ℤ y =
      ap (λ z. to_ℤ x +ℤ z) flipped ∙ +ℤ-neg (to_ℤ x) (to_ℤ y) in
    (vt_add-eq-ct_add n x (wrapping_neg y) hx valid, value ∙ ap (truncated n) e, words, canonical)
