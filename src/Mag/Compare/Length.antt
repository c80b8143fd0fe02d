-- ===== src/Mag/Compare/Length.antt =====
-- Every limb at or past the effective length is zero.
use sqisign_selkie.Prelude.{ℕ, zero, suc, ◌≤◌, ◌<◌, ◌≡◌, arith, List, [], ◌∷◌, length, get_or}
use sqisign_selkie.Limbs.{ZeroFrom}
use sqisign_selkie.Mag.Compare.{mag_effective_len_loop, mag_effective_len}

effective_len_loop_above :
    (a : List ℕ) (i j : ℕ) → j < i → mag_effective_len_loop a i ≤ j → get_or a j 0 ≡ 0
unfolding mag_effective_len_loop
effective_len_loop_above a zero j h g = absurd (omega arith)
effective_len_loop_above a (suc i) j h g = ground (arith, effective_len_loop_above a i j)

ZeroFrom-get_or :
    (k : ℕ) (a : List ℕ) → ((j : ℕ) → k ≤ j → j < length a → get_or a j 0 ≡ 0) → ZeroFrom k a
ZeroFrom-get_or zero [] h = tt
ZeroFrom-get_or zero (x ∷ a) h = (
  h 0 (omega arith) (omega arith),
  ZeroFrom-get_or zero a (λ j p q. h (suc j) (omega arith) (omega arith)),
)
ZeroFrom-get_or (suc k) [] h = tt
ZeroFrom-get_or (suc k) (x ∷ a) h =
    ZeroFrom-get_or k a (λ j p q. h (suc j) (omega arith) (omega arith))

pub mag_effective_len-ZeroFrom : (a : List ℕ) → ZeroFrom (mag_effective_len a) a
unfolding mag_effective_len
mag_effective_len-ZeroFrom a =
    ZeroFrom-get_or (mag_effective_len_loop a (length a)) a
      (λ j p q. effective_len_loop_above a (length a) j q p)

effective_len_loop-le : (a : List ℕ) (i : ℕ) → mag_effective_len_loop a i ≤ i
unfolding mag_effective_len_loop
effective_len_loop-le a zero = omega arith
effective_len_loop-le a (suc i) = ground (arith, effective_len_loop-le a i)

pub mag_effective_len-le : (a : List ℕ) → mag_effective_len a ≤ length a
unfolding mag_effective_len
mag_effective_len-le a = effective_len_loop-le a (length a)
