-- ===== src/Mag/Shift/Left.antt =====
-- A left shift multiplies the magnitude by a power of two, modulo the bound.
use native.Mathlib.Nat.{zero-add, add-zero, zero-div}
use sqisign_selkie.Prelude.{
  ℕ, zero, suc, ◌+◌, ◌-◌, ◌*◌, ◌/◌, ◌%◌, ◌^◌, ◌≤◌, ◌<◌, ◌≡◌, refl, sym, ap, ◌∙◌, arith, List, [],
  ◌∷◌, get_or, drop, leb, ltb, true, false, inl, inr, Bool-cases,
}
use sqisign_selkie.Prelude.Modulo.{low_is_mod}
use sqisign_selkie.Bits.{bit_and-zero}
use sqisign_selkie.Word.{radix, IsWord}
use sqisign_selkie.Word.Laws.{ct_select_u64-zero, ct_select_u64-one}
use sqisign_selkie.Word.Count.{pow_pos}
use sqisign_selkie.Limbs.{IsLimbs, val, cap}
use sqisign_selkie.Limbs.Laws.{length-limbs, val-lt}
use sqisign_selkie.Limbs.Low.{low, low-suc, low-drop, cap-mul-pow, cap-add, get_or-IsWord}
use sqisign_selkie.Mag.Shift.{mag_shl_loop, mag_shl}
use sqisign_selkie.Mag.Shift.Limb.{join_high, turned, shl_kept, shl_below, shl_select, shl_parts}

-- What a shift by `r` moves from the limbs below index `k` into it.
abbrev carry_in : List ℕ → ℕ → ℕ → ℕ
carry_in a r zero = 0
carry_in a r (suc k) = get_or a k 0 / 2 ^ (64 - r)

-- A round below the boundary writes 0 and leaves the indicator at 0.
shl_step_low :
    (r j i l : ℕ) (a above : List ℕ)
    → i < j
    → l ≤ 1
    → mag_shl_loop a r j (suc i) l above ≡ mag_shl_loop a r j i 0 (0 ∷ above)
unfolding mag_shl_loop
shl_step_low r j i zero a above h hl =
    let off : leb j i ≡ false = ground arith in
    rw (off, ct_select_u64-zero 0 0, bit_and-zero 0) refl
shl_step_low r j i (suc zero) a above h hl =
    let off : leb j i ≡ false = ground arith in
    rw (off, ct_select_u64-one 0 0 (omega arith) (omega arith), bit_and-zero 1) refl
shl_step_low r j i (suc (suc l)) a above h hl = absurd (omega arith)

shl_low_loop :
    (m r j i l : ℕ) (a above : List ℕ)
    → i ≤ j
    → l ≤ 1
    → IsLimbs m above
    → (val (mag_shl_loop a r j i l above) ≡ cap i * val above)
      × IsLimbs (i + m) (mag_shl_loop a r j i l above)
unfolding mag_shl_loop
shl_low_loop m r j zero l a above h hl ha = (omega arith, rw (zero-add m) ha)
shl_low_loop m r j (suc i) l a above h hl ha =
    let (e, words) =
      shl_low_loop (suc m) r j i 0 a (0 ∷ above) (omega arith) (omega arith) (omega arith, ha) in
    let size : suc i + m ≡ i + suc m = omega arith in
    rw (shl_step_low r j i l a above h hl, size) (omega (arith, e), words)

-- A round at index j + k joins the limb at index `k` with what moves into it.
shl_step_high :
    (n r j k i : ℕ) (a above : List ℕ)
    → i ≡ j + k
    → r < 64
    → IsLimbs n a
    → k < n
    → mag_shl_loop a r j (suc i) 1 above
      ≡ mag_shl_loop a r j i 1 ((get_or a k 0 * 2 ^ r % radix + carry_in a r k) ∷ above)
unfolding mag_shl_loop
shl_step_high n r j zero i a above e hr ha hk =
    let on : leb j i ≡ true = ground arith in
    let lowest : ltb j i ≡ false = ground arith in
    let index : i - j ≡ 0 = omega arith in
    let word = get_or-IsWord n 0 a ha hk in
    rw
      (
        on,
        lowest,
        index,
        shl_select r (get_or a 0 0) 0 hr word (omega arith),
        zero-div (2 ^ (64 - r)),
      )
      refl
shl_step_high n r j (suc k) i a above e hr ha hk =
    let on : leb j i ≡ true = ground arith in
    let higher : ltb j i ≡ true = ground arith in
    let index : i - j ≡ suc k = omega arith in
    let below : suc k - 1 ≡ k = omega arith in
    let word = get_or-IsWord n (suc k) a ha hk in
    let word' = get_or-IsWord n k a ha (omega arith) in
    rw (on, higher, index, below, shl_select r (get_or a (suc k) 0) (get_or a k 0) hr word word')
      refl

carry_in-lt : (n r k : ℕ) (a : List ℕ) → r < 64 → IsLimbs n a → k ≤ n → carry_in a r k < 2 ^ r
carry_in-lt n r zero a hr ha hk = pow_pos r
carry_in-lt n r (suc k) a hr ha hk =
    shl_below r (get_or a k 0) hr (get_or-IsWord n k a ha (omega (arith, hk)))

shifted-IsWord : (r x c : ℕ) → r < 64 → IsWord x → c < 2 ^ r → IsWord (x * 2 ^ r % radix + c)
shifted-IsWord r x c h hx hc = omega (
  arith,
  shl_kept r x h hx,
  hc,
  join_high (2 ^ (64 - r)) (2 ^ r) x (pow_pos (64 - r)) (turned r h),
)

-- One more limb of the operand: `q` moves on from it, and `c` into it.
shl_arith :
    (res c p x w q l cj ck v : ℕ)
    → w + radix * q ≡ x * p
    → res + cj * ck * c ≡ cj * (l * p) + cj * ck * (w + c + radix * v)
    → res + cj * (radix * ck) * q ≡ cj * ((l + x * ck) * p) + cj * (radix * ck) * v
shl_arith res c p x w q l cj ck v e h = omega (arith, h, ap (λ (t : ℕ). cj * ck * t) e)

shl_loop_value :
    (n m r j k i : ℕ) (a above : List ℕ)
    → i ≡ j + k
    → r < 64
    → IsLimbs n a
    → k ≤ n
    → IsLimbs m above
    → (val (mag_shl_loop a r j i 1 above) + cap j * cap k * carry_in a r k
        ≡ cap j * (low k a * 2 ^ r) + cap j * cap k * val above)
      × IsLimbs (i + m) (mag_shl_loop a r j i 1 above)
shl_loop_value n m r j zero i a above e hr ha hk hm =
    let same : i ≡ j = omega (arith, e) in
    let (value, words) = shl_low_loop m r j j 1 a above (omega arith) (omega arith) hm in
    rw same (omega (arith, value), words)
shl_loop_value n m r j (suc k) zero a above e hr ha hk hm = absurd (omega (arith, e))
shl_loop_value n m r j (suc k) (suc i) a above e hr ha hk hm =
    let x = get_or a k 0 in
    let c = carry_in a r k in
    let place : i ≡ j + k = omega (arith, e) in
    let c_small = carry_in-lt n r k a hr ha (omega arith) in
    let word = shifted-IsWord r x c hr (get_or-IsWord n k a ha hk) c_small in
    let (value, words) =
      shl_loop_value n (suc m) r j k i a ((x * 2 ^ r % radix + c) ∷ above) place hr ha (omega arith)
        (word, hm) in
    let size : suc i + m ≡ i + suc m = omega arith in
    rw (shl_step_high n r j k i a above place hr ha hk, size, low-suc n k a ha hk)
      (
        shl_arith (val (mag_shl_loop a r j i 1 ((x * 2 ^ r % radix + c) ∷ above))) c (2 ^ r) x
            (x * 2 ^ r % radix) (x / 2 ^ (64 - r)) (low k a) (cap j) (cap k) (val above)
            (shl_parts r x hr) value,
        words,
      )

no_more : (n : ℕ) (a : List ℕ) → IsLimbs (n + 0) a → IsLimbs n a
no_more n a h = rw (sym (add-zero n)) h

-- The limbs of the operand that stay, moved by `j` limbs and `r` bits.
shl_inside :
    (n r j k : ℕ) (a : List ℕ)
    → n ≡ j + k
    → r < 64
    → IsLimbs n a
    → (val (mag_shl_loop a r j n 1 []) ≡ val a * 2 ^ (r + 64 * j) % cap n)
      × IsLimbs n (mag_shl_loop a r j n 1 [])
shl_inside n r j k a e hr ha =
    let (value, words) = shl_loop_value n 0 r j k n a [] e hr ha (omega (arith, e)) tt in
    let sized = no_more n (mag_shl_loop a r j n 1 []) words in
    let caps : cap n ≡ cap j * cap k = ap cap e ∙ cap-add j k in
    let total : val (mag_shl_loop a r j n 1 []) + cap n * (carry_in a r k + val (drop k a) * 2 ^ r)
        ≡ val a * 2 ^ (r + 64 * j) =
      rw (caps, cap-mul-pow j r)
        (omega (arith, value, ap (λ (t : ℕ). t * (cap j * 2 ^ r)) (low-drop n k a ha))) in
    (
      low_is_mod (val (mag_shl_loop a r j n 1 [])) (carry_in a r k + val (drop k a) * 2 ^ r) (cap n)
          (val a * 2 ^ (r + 64 * j)) total (val-lt n (mag_shl_loop a r j n 1 []) sized),
      sized,
    )

-- A shift by the whole width or more leaves nothing.
shl_outside :
    (n r j k : ℕ) (a : List ℕ)
    → j ≡ n + k
    → IsLimbs n a
    → (val (mag_shl_loop a r j n 1 []) ≡ val a * 2 ^ (r + 64 * j) % cap n)
      × IsLimbs n (mag_shl_loop a r j n 1 [])
shl_outside n r j k a e ha =
    let (value, words) = shl_low_loop 0 r j n 1 a [] (omega (arith, e)) (omega arith) tt in
    let sized = no_more n (mag_shl_loop a r j n 1 []) words in
    let caps : cap j ≡ cap n * cap k = ap cap e ∙ cap-add n k in
    let total : val (mag_shl_loop a r j n 1 []) + cap n * (val a * cap k * 2 ^ r)
        ≡ val a * 2 ^ (r + 64 * j) =
      rw (cap-mul-pow j r, caps) (omega (arith, value)) in
    (
      low_is_mod (val (mag_shl_loop a r j n 1 [])) (val a * cap k * 2 ^ r) (cap n)
          (val a * 2 ^ (r + 64 * j)) total (val-lt n (mag_shl_loop a r j n 1 []) sized),
      sized,
    )

-- `mag_shl` multiplies the magnitude by 2 ^ s modulo the bound, and keeps the width.
pub mag_shl_value :
    (n : ℕ) (a : List ℕ) (s : ℕ)
    → IsLimbs n a
    → (val (mag_shl a s) ≡ val a * 2 ^ s % cap n) × IsLimbs n (mag_shl a s)
unfolding mag_shl
mag_shl_value n a s h =
    let parts : s % 64 + 64 * (s / 64) ≡ s = omega arith in
    let shift = ap (λ (t : ℕ). val a * 2 ^ t % cap n) parts in
    let (value, words) : (val (mag_shl_loop a (s % 64) (s / 64) n 1 [])
          ≡ val a * 2 ^ (s % 64 + 64 * (s / 64)) % cap n)
        × IsLimbs n (mag_shl_loop a (s % 64) (s / 64) n 1 []) =
      elim (Bool-cases (leb (s / 64) n)) [
        | inl inside ↦ shl_inside n (s % 64) (s / 64) (n - s / 64) a (ground arith) (omega arith) h
        | inr outside ↦ shl_outside n (s % 64) (s / 64) (s / 64 - n) a (ground arith) h
      ] in
    rw (length-limbs n a h) (value ∙ shift, words)
