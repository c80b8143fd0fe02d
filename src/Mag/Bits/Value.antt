-- ===== src/Mag/Bits/Value.antt =====
-- The bit count of a magnitude is its bit length.
use sqisign_selkie.Prelude.{
  ℕ, zero, suc, ◌+◌, ◌*◌, ◌^◌, ◌≤◌, ◌<◌, ◌≡◌, inl, inr, refl, sym, ap, arith, List, length, get_or,
}
use sqisign_selkie.Word.{nbits64}
use sqisign_selkie.Word.Count.{IsBitLength, nbits64_value}
use sqisign_selkie.Limbs.{IsLimbs, val, cap}
use sqisign_selkie.Limbs.Laws.{length-limbs}
use sqisign_selkie.Limbs.Low.{low, low-lt, low-suc, low_all, cap-mul-pow, get_or-IsWord}
use sqisign_selkie.Mag.Bits.{count_limb, mag_bitsize_loop, mag_bitsize}

count_limb-zero : (i k : ℕ) → count_limb i 0 k ≡ k
unfolding count_limb
count_limb-zero i zero = ground arith
count_limb-zero i (suc k) = ground arith

count_limb-suc : (i s : ℕ) → count_limb i (suc s) 0 ≡ suc s + 64 * i
unfolding count_limb
count_limb-suc i s = ground arith

count_limb_done : (i s k : ℕ) → 0 < k → count_limb i s k ≡ k
unfolding count_limb
count_limb_done i s zero h = absurd (omega arith)
count_limb_done i s (suc k) h = ground arith

bitsize_loop_done : (a : List ℕ) (i k : ℕ) → 0 < k → mag_bitsize_loop a i k ≡ k
unfolding mag_bitsize_loop
bitsize_loop_done a zero k h = refl
bitsize_loop_done a (suc i) k h =
    let e = count_limb_done i (nbits64 (get_or a i 0)) k h in rw e (bitsize_loop_done a i k h)

times : (a b c : ℕ) → a ≤ b → a * c ≤ b * c
times a b c h = grind arith

-- A limb that is not zero fixes the bit length.
IsBitLength-top :
    (l x s i : ℕ) → l < cap i → IsBitLength x (suc s) → IsBitLength (l + x * cap i) (suc s + 64 * i)
IsBitLength-top l x s i h b = record {
  below = omega (arith, cap-mul-pow i (suc s), times (suc x) (2 ^ suc s) (cap i) b.below);
  reaches = elim b.reaches [
    | inl z ↦ absurd (omega arith)
    | inr le ↦ inr (omega (arith, cap-mul-pow i (suc s), times (2 ^ suc s) (2 * x) (cap i) le))
  ];
}

bitsize_step :
    (i s x l m : ℕ) (a : List ℕ)
    → l < cap i
    → m ≡ l + x * cap i
    → IsBitLength x s
    → s ≤ 64
    → IsBitLength l (mag_bitsize_loop a i 0) × (mag_bitsize_loop a i 0 ≤ 64 * i)
    → IsBitLength m (mag_bitsize_loop a i (count_limb i s 0))
      × (mag_bitsize_loop a i (count_limb i s 0) ≤ 64 * suc i)
bitsize_step i zero x l m a h e b small (below, le) =
    let none : x ≡ 0 = omega (arith, b.below) in
    let same : m ≡ l = omega (arith, e, ap (λ (t : ℕ). t * cap i) none) in
    rw (count_limb-zero i 0, same) (below, omega (arith, le))
bitsize_step i (suc s) x l m a h e b small ih =
    rw (count_limb-suc i s, bitsize_loop_done a i (suc s + 64 * i) (omega arith), e)
      (IsBitLength-top l x s i h b, omega arith)

bitsize_loop_value :
    (n i : ℕ) (a : List ℕ)
    → IsLimbs n a
    → i ≤ n
    → IsBitLength (low i a) (mag_bitsize_loop a i 0) × (mag_bitsize_loop a i 0 ≤ 64 * i)
unfolding mag_bitsize_loop
bitsize_loop_value n zero a h le = (record { below = omega arith; reaches = inl refl }, omega arith)
bitsize_loop_value n (suc i) a h le =
    let (b, small) = nbits64_value (get_or a i 0) (get_or-IsWord n i a h (omega arith)) in
    bitsize_step i (nbits64 (get_or a i 0)) (get_or a i 0) (low i a) (low (suc i) a) a
      (low-lt n i a h) (low-suc n i a h (omega arith)) b small
      (bitsize_loop_value n i a h (omega arith))

pub mag_bitsize_loop_value :
    (n : ℕ) (a : List ℕ)
    → IsLimbs n a
    → IsBitLength (val a) (mag_bitsize_loop a (length a) 0)
      × (mag_bitsize_loop a (length a) 0 ≤ 64 * n)
mag_bitsize_loop_value n a h =
    rw (length-limbs n a h, sym (low_all n a h)) (bitsize_loop_value n n a h (omega arith))

-- The count is the bit length of the magnitude, and fits the limbs.
pub mag_bitsize_value :
    (n : ℕ) (a : List ℕ)
    → IsLimbs n a
    → IsBitLength (val a) (mag_bitsize a) × (mag_bitsize a ≤ 64 * n)
unfolding mag_bitsize
mag_bitsize_value = mag_bitsize_loop_value
