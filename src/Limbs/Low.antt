-- ===== src/Limbs/Low.antt =====
-- The lowest limbs of an array, and bounds that are powers of two.
use native.Mathlib.Nat.{
  pow-suc, zero-add, suc-add, add-mul-div_left, div-eq_of_lt, add-suc, add-zero,
}
use sqisign_selkie.Prelude.{
  ℕ, zero, suc, ◌+◌, ◌*◌, ◌^◌, ◌<◌, ◌≡◌, refl, ap, arith, List, [], ◌∷◌, get_or, take, sym, drop,
  ◌/◌, ◌%◌, ◌≤◌,
}
use sqisign_selkie.Word.{radix, IsWord}
use sqisign_selkie.Limbs.{IsLimbs, val, cap}
use sqisign_selkie.Limbs.Laws.{cap_pos}

-- The magnitude of the lowest `i` limbs.
abbrev pub low : ℕ → List ℕ → ℕ
low i a = val (take i a)

pub low-lt : (n i : ℕ) (a : List ℕ) → IsLimbs n a → low i a < cap i
low-lt n zero a h = omega arith
low-lt n (suc i) [] h = omega (arith, cap_pos i)
low-lt zero (suc i) (x ∷ a) h = elim h [ ]
low-lt (suc n) (suc i) (x ∷ a) h = omega (arith, low-lt n i a h.1)

pub low-suc :
    (n i : ℕ) (a : List ℕ) → IsLimbs n a → i < n → low (suc i) a ≡ low i a + get_or a i 0 * cap i
low-suc zero i a h lt = absurd (omega arith)
low-suc (suc n) i [] h lt = elim h [ ]
low-suc (suc n) zero (x ∷ a) h lt = omega arith
low-suc (suc n) (suc i) (x ∷ a) h lt = omega (arith, low-suc n i a h.1 (omega arith))

pub low_all : (n : ℕ) (a : List ℕ) → IsLimbs n a → low n a ≡ val a
low_all zero [] h = refl
low_all zero (x ∷ a) h = elim h [ ]
low_all (suc n) [] h = elim h [ ]
low_all (suc n) (x ∷ a) h = omega (arith, low_all n a h.1)

pub pow-add : (a b : ℕ) → 2 ^ (a + b) ≡ 2 ^ a * 2 ^ b
pow-add a zero = rw add-zero (omega arith)
pow-add a (suc b) =
    rw add-suc
      (omega (arith, pow-suc 2 (a + b), ap (λ (t : ℕ). 2 ^ a * t) (pow-suc 2 b), pow-add a b))

-- `i` limbs hold 64 i bits.
pub cap-mul-pow : (i s : ℕ) → 2 ^ (s + 64 * i) ≡ cap i * 2 ^ s
cap-mul-pow zero s = rw add-zero (omega arith)
cap-mul-pow (suc i) s =
    let e : s + 64 * suc i ≡ s + 64 * i + 64 = omega arith in
    rw e (omega (arith, pow-add (s + 64 * i) 64, cap-mul-pow i s))

pub get_or-IsWord : (n i : ℕ) (a : List ℕ) → IsLimbs n a → i < n → IsWord (get_or a i 0)
get_or-IsWord zero i a h lt = absurd (omega arith)
get_or-IsWord (suc n) i [] h lt = elim h [ ]
get_or-IsWord (suc n) zero (x ∷ a) h lt = h.0
get_or-IsWord (suc n) (suc i) (x ∷ a) h lt = get_or-IsWord n i a h.1 (omega arith)

pub low-drop : (n i : ℕ) (a : List ℕ) → IsLimbs n a → low i a + cap i * val (drop i a) ≡ val a
low-drop n zero a h = omega arith
low-drop n (suc i) [] h = omega arith
low-drop zero (suc i) (x ∷ a) h = elim h [ ]
low-drop (suc n) (suc i) (x ∷ a) h = omega (arith, low-drop n i a h.1)

-- Dropping limbs divides.
pub val-drop : (n i : ℕ) (a : List ℕ) → IsLimbs n a → val (drop i a) ≡ val a / cap i
val-drop n i a h =
    let split = add-mul-div_left (low i a) (val (drop i a)) (cap_pos i) in
    rw (sym (low-drop n i a h), split, div-eq_of_lt (low-lt n i a h))
      (sym (zero-add (val (drop i a))))

pub drop_past : (n i : ℕ) (a : List ℕ) → IsLimbs n a → n ≤ i → val (drop i a) ≡ 0
drop_past zero zero [] h le = refl
drop_past zero (suc i) [] h le = refl
drop_past zero i (x ∷ a) h le = elim h [ ]
drop_past (suc n) zero a h le = absurd (omega arith)
drop_past (suc n) (suc i) [] h le = elim h [ ]
drop_past (suc n) (suc i) (x ∷ a) h le = drop_past n i a h.1 (omega arith)

-- The limb at index `i` and the number above it.
pub split_at :
    (n i : ℕ) (a : List ℕ)
    → IsLimbs n a
    → (val (drop i a) ≡ get_or a i 0 + radix * val (drop (suc i) a)) × IsWord (get_or a i 0)
split_at zero zero [] h = (refl, omega arith)
split_at zero (suc i) [] h = (refl, omega arith)
split_at zero i (x ∷ a) h = elim h [ ]
split_at (suc n) i [] h = elim h [ ]
split_at (suc n) zero (x ∷ a) h = (refl, h.0)
split_at (suc n) (suc i) (x ∷ a) h = split_at n i a h.1

pub low_word : (n i : ℕ) (a : List ℕ) → IsLimbs n a → get_or a i 0 ≡ val (drop i a) % radix
low_word n i a h = let (e, w) = split_at n i a h in omega (arith, e, w)

pub cap-add : (i j : ℕ) → cap (i + j) ≡ cap i * cap j
cap-add zero j = rw (zero-add j) (omega arith)
cap-add (suc i) j = rw (suc-add i j) (omega (arith, cap-add i j))
