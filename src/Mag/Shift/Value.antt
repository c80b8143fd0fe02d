-- ===== src/Mag/Shift/Value.antt =====
-- A right shift divides the magnitude by a power of two.
use native.Mathlib.Nat.{zero-add, zero-div, div-div-eq-div-mul}
use sqisign_selkie.Prelude.{
  ℕ, zero, suc, ◌+◌, ◌*◌, ◌/◌, ◌%◌, ◌^◌, ◌≤◌, ◌<◌, ◌≡◌, sym, ap, ◌∙◌, arith, List, get_or, drop,
}
use sqisign_selkie.Limbs.{IsLimbs, val, cap}
use sqisign_selkie.Limbs.Laws.{length-limbs}
use sqisign_selkie.Limbs.Low.{cap-mul-pow, val-drop, drop_past, split_at, low_word}
use sqisign_selkie.Mag.Shift.Limb.{shr_limb_value}
use sqisign_selkie.Mag.Shift.{mag_shr_loop, mag_shr}

mag_shr_loop_value :
    (n r j i left : ℕ) (a : List ℕ)
    → r < 64
    → IsLimbs n a
    → n ≤ i + left
    → (val (mag_shr_loop a r j i left) ≡ val (drop (i + j) a) / 2 ^ r)
      × IsLimbs left (mag_shr_loop a r j i left)
unfolding mag_shr_loop
mag_shr_loop_value n r j i zero a hr h le =
    (rw (drop_past n (i + j) a h (omega (arith, le))) (sym (zero-div (2 ^ r))), tt)
mag_shr_loop_value n r j i (suc left) a hr h le =
    let v = val (drop (suc (i + j)) a) in
    let (e, w) = split_at n (i + j) a h in
    let (joined, word) = shr_limb_value r (get_or a (i + j) 0) v hr w in
    let (ih, words) = mag_shr_loop_value n r j (i + 1) left a hr h (omega (arith, le)) in
    let next : i + 1 + j ≡ suc (i + j) = omega arith in
    let above : i + j + 1 ≡ suc (i + j) = omega arith in
    rw (above, low_word n (suc (i + j)) a h, e)
      (omega (arith, joined, rw next at ih), (word, words))

-- `mag_shr` divides the magnitude by 2 ^ s, rounding down, and keeps the width.
pub mag_shr_value :
    (n : ℕ) (a : List ℕ) (s : ℕ)
    → IsLimbs n a
    → (val (mag_shr a s) ≡ val a / 2 ^ s) × IsLimbs n (mag_shr a s)
unfolding mag_shr
mag_shr_value n a s h =
    let (e, words) = mag_shr_loop_value n (s % 64) (s / 64) 0 n a (omega arith) h (omega arith) in
    let parts : s % 64 + 64 * (s / 64) ≡ s = omega arith in
    rw (length-limbs n a h) (
      e
          ∙ ap (λ (t : ℕ). val (drop t a) / 2 ^ (s % 64)) (zero-add (s / 64))
          ∙ ap (λ (t : ℕ). t / 2 ^ (s % 64)) (val-drop n (s / 64) a h)
          ∙ div-div-eq-div-mul (val a) (cap (s / 64)) (2 ^ (s % 64))
          ∙ ap (λ (t : ℕ). val a / t)
              (sym (cap-mul-pow (s / 64) (s % 64)) ∙ ap (λ (t : ℕ). 2 ^ t) parts),
      words,
    )
