-- ===== src/BigInt/Resize/Value.antt =====
-- A change of width keeps the integer where it fits.
use sqisign_selkie.Prelude.{
  Bool, true, false, bit_or, ℕ, zero, suc, ◌+◌, ◌*◌, ◌%◌, ◌≤◌, ◌<◌, ◌⊎◌, ◌≡◌, ◌≢◌, refl, sym, ap,
  ◌∙◌, arith, List, [], ◌∷◌, drop, length, none, some, ◌==◌, ltb, Bool-cases, inl, inr,
}
use native.Mathlib.Nat.{mod-eq_of_lt}
use sqisign_selkie.Prelude.Modulo.{low_is_mod}
use sqisign_selkie.Int.{signed}
use sqisign_selkie.Word.{as_u64}
use sqisign_selkie.Limbs.{IsLimbs, val, cap, AllZero}
use sqisign_selkie.Limbs.Laws.{
  val-lt, length-limbs, zeros-IsLimbs, val-zeros, AllZero-val, val-AllZero,
}
use sqisign_selkie.Mag.Compare.{or_limbs}
use sqisign_selkie.Mag.Compare.Value.{or_limbs_four, or_limbs-AllZero, zero-or_limbs}
use sqisign_selkie.BigInt.{BigInt, IsBigInt, to_ℤ, truncated}
use sqisign_selkie.BigInt.Sign.{truncated-signed}
use sqisign_selkie.BigInt.Resize.{narrow, narrow_ct, copy_limbs, widen, narrow_to, resize_unchecked}

-- The lowest `k` limbs of `n`, padded to `w` limbs.
pub copy_limbs_value :
    (k n w : ℕ) (a : List ℕ)
    → k ≤ n
    → k ≤ w
    → IsLimbs n a
    → (val (copy_limbs w k a) + cap k * val (drop k a) ≡ val a) × IsLimbs w (copy_limbs w k a)
unfolding copy_limbs
copy_limbs_value zero n w a h g ha = (omega (arith, val-zeros w), zeros-IsLimbs w)
copy_limbs_value (suc k) n zero a h g ha = absurd (omega arith)
copy_limbs_value (suc k) zero (suc w) a h g ha = absurd (omega arith)
copy_limbs_value (suc k) (suc n) (suc w) [] h g ha = elim ha [ ]
copy_limbs_value (suc k) (suc n) (suc w) (x ∷ a) h g ha =
    let (value, words) = copy_limbs_value k n w a (omega arith) (omega arith) ha.1 in
    (omega arith, (ha.0, words))

top_zero_of_fits : (low high c total : ℕ) → low + c * high ≡ total → total < c → high ≡ 0
top_zero_of_fits low zero c total e h = refl
top_zero_of_fits low (suc high) c total e h = absurd (omega arith)

low_is_all : (low high c total : ℕ) → low + c * high ≡ total → high ≡ 0 → low ≡ total
low_is_all low high c total e z = ground (arith, e, z)

over_of_top : (low high c total : ℕ) → low + c * high ≡ total → high ≢ 0 → c ≤ total
over_of_top low zero c total e h = absurd (h refl)
over_of_top low (suc high) c total e h = omega arith

nonzero_top : (a : List ℕ) → ¬ (AllZero a) → val a ≢ 0
nonzero_top a h e = h (val-AllZero a e)

-- Widening keeps the integer, in the new width.
pub widen_value :
    (n w : ℕ) (x : BigInt)
    → n ≤ w
    → IsBigInt n x
    → (to_ℤ (widen w x) ≡ to_ℤ x) × IsBigInt w (widen w x)
unfolding widen
widen_value n w x h hx =
    let (value, words) = copy_limbs_value n n w x.limbs (omega arith) h hx.words in
    let none_left = top_zero_of_fits _ _ (cap n) (val x.limbs) value (val-lt n x.limbs hx.words) in
    let same : val (copy_limbs w n x.limbs) ≡ val x.limbs = ground (arith, value, none_left) in
    rw (length-limbs n x.limbs hx.words)
      (ap (signed x.sign) same, record { flag = hx.flag; words = words })

-- `narrow_to` answers exactly on the magnitudes that fit the narrower width, with the same integer.
pub narrow_to_value :
    (n t : ℕ) (x : BigInt)
    → t ≤ n
    → IsBigInt n x
    → ((val x.limbs < cap t)
        × (y : BigInt) × (narrow_to t x ≡ some y)
        × (to_ℤ y ≡ to_ℤ x)
        × IsBigInt t y)
      ⊎ ((cap t ≤ val x.limbs) × (narrow_to t x ≡ none))
unfolding narrow_to
narrow_to_value n t x h hx = elim (Bool-cases (or_limbs (drop t x.limbs) 0 == 0)) [
  | inl zero_top ↦
      let none_left =
        AllZero-val (drop t x.limbs) (zero-or_limbs (drop t x.limbs) 0 (ground arith)).1 in
      let same = low_is_all _ _ (cap t) (val x.limbs) value none_left in
      inl (
        rw (← same) (val-lt t (copy_limbs t t x.limbs) words),
        record { sign = x.sign; limbs = copy_limbs t t x.limbs },
        rw zero_top refl,
        ap (signed x.sign) same,
        record { flag = hx.flag; words = words },
      )
  | inr top ↦
      let some_left =
        nonzero_top (drop t x.limbs) (λ z. ground (arith, or_limbs-AllZero (drop t x.limbs) z)) in
      inr (over_of_top _ _ (cap t) (val x.limbs) value some_left, rw top refl)
]
  where
    split :
        (val (copy_limbs t t x.limbs) + cap t * val (drop t x.limbs) ≡ val x.limbs)
        × IsLimbs t (copy_limbs t t x.limbs)
    split = copy_limbs_value t n t x.limbs h (omega arith) hx.words

    value : val (copy_limbs t t x.limbs) + cap t * val (drop t x.limbs) ≡ val x.limbs
    value = split.0

    words : IsLimbs t (copy_limbs t t x.limbs)
    words = split.1

-- Without the assertion the integer is truncated where it does not fit.
pub resize_unchecked_value :
    (n w : ℕ) (x : BigInt)
    → IsBigInt n x
    → (to_ℤ (resize_unchecked w x) ≡ truncated w (to_ℤ x)) × IsBigInt w (resize_unchecked w x)
unfolding resize_unchecked
resize_unchecked_value n w x hx = elim (Bool-cases (ltb (length x.limbs) w)) [
  | inl wider ↦
      let len = length-limbs n x.limbs hx.words in
      let (value, words) = copy_limbs_value n n w x.limbs (omega arith) (ground arith) hx.words in
      let none_left =
        top_zero_of_fits _ _ (cap n) (val x.limbs) value (val-lt n x.limbs hx.words) in
      let same = low_is_all _ _ (cap n) (val x.limbs) value none_left in
      rw (wider, len)
        (
          ap (signed x.sign) (
                sym (mod-eq_of_lt (val-lt w (copy_limbs w n x.limbs) words))
                ∙ ap (λ t. t % cap w) same)
              ∙ sym (truncated-signed w x.sign (val x.limbs)),
          record { flag = hx.flag; words = words },
        )
  | inr narrower ↦
      let len = length-limbs n x.limbs hx.words in
      let (value, words) = copy_limbs_value w n w x.limbs (ground arith) (omega arith) hx.words in
      rw narrower (
        ap (signed x.sign) (low_is_mod _ _ (cap w) (val x.limbs) value (val-lt w _ words))
            ∙ sym (truncated-signed w x.sign (val x.limbs)),
        record { flag = hx.flag; words = words },
      )
]

flag_is_one : (b : Bool) → (as_u64 b == 1) ≡ b
flag_is_one true = refl
flag_is_one false = refl

abbrev pub of_eight : (s a b c d e f g h : ℕ) → BigInt
of_eight s a b c d e f g h = record { sign = s; limbs = a ∷ b ∷ c ∷ d ∷ e ∷ f ∷ g ∷ h ∷ [] }

-- On every value of eight limbs, `narrow` is `narrow_to` at width 4.
pub narrow-eq-narrow_to :
    (s a b c d e f g h : ℕ)
    → narrow (of_eight s a b c d e f g h) ≡ narrow_to 4 (of_eight s a b c d e f g h)
unfolding narrow narrow_ct narrow_to copy_limbs
narrow-eq-narrow_to s a b c d e f g h =
    let overflow = bit_or (bit_or (bit_or (bit_or 0 e) f) g) h in
    rw (flag_is_one (overflow == 0), or_limbs_four e f g h) refl
