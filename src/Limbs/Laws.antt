-- ===== src/Limbs/Laws.antt =====
-- A limb array is determined by its number, which lies below the bound.
use native.Mathlib.Nat.{pow-suc}
use sqisign_selkie.Prelude.{
  ℕ, zero, suc, ◌^◌, ◌≤◌, ◌<◌, ◌≡◌, refl, ap, ap₂, arith, List, [], ◌∷◌, length,
}
use sqisign_selkie.Word.{radix}
use sqisign_selkie.Limbs.{IsLimbs, val, cap, zeros, AllZero, ZeroFrom}

pub cap_pos : (n : ℕ) → 0 < cap n
cap_pos zero = omega arith
cap_pos (suc n) = omega (arith, cap_pos n)

pub val-lt : (n : ℕ) (a : List ℕ) → IsLimbs n a → val a < cap n
val-lt zero [] h = omega arith
val-lt zero (x ∷ a) h = elim h [ ]
val-lt (suc n) [] h = elim h [ ]
val-lt (suc n) (x ∷ a) h = omega (arith, val-lt n a h.1)

pub val_injective : (n : ℕ) (a b : List ℕ) → IsLimbs n a → IsLimbs n b → val a ≡ val b → a ≡ b
val_injective zero [] [] h g e = refl
val_injective zero [] (y ∷ b) h g e = elim g [ ]
val_injective zero (x ∷ a) b h g e = elim h [ ]
val_injective (suc n) [] b h g e = elim h [ ]
val_injective (suc n) (x ∷ a) [] h g e = elim g [ ]
val_injective (suc n) (x ∷ a) (y ∷ b) h g e =
    ap₂ ◌∷◌ (omega arith) (val_injective n a b h.1 g.1 (omega arith))

pub zeros-IsLimbs : (n : ℕ) → IsLimbs n (zeros n)
zeros-IsLimbs zero = tt
zeros-IsLimbs (suc n) = (omega arith, zeros-IsLimbs n)

pub val-zeros : (n : ℕ) → val (zeros n) ≡ 0
val-zeros zero = refl
val-zeros (suc n) = omega (arith, val-zeros n)

pub length-limbs : (n : ℕ) (a : List ℕ) → IsLimbs n a → length a ≡ n
length-limbs zero [] h = refl
length-limbs zero (x ∷ a) h = elim h [ ]
length-limbs (suc n) [] h = elim h [ ]
length-limbs (suc n) (x ∷ a) h = ap suc (length-limbs n a h.1)

pub AllZero-val : (a : List ℕ) → AllZero a → val a ≡ 0
AllZero-val [] h = refl
AllZero-val (x ∷ a) h = omega (arith, AllZero-val a h.1)

pub val-AllZero : (a : List ℕ) → val a ≡ 0 → AllZero a
val-AllZero [] h = tt
val-AllZero (x ∷ a) h = (omega arith, val-AllZero a (omega arith))

pub ZeroFrom-le : (k m : ℕ) (a : List ℕ) → k ≤ m → ZeroFrom k a → ZeroFrom m a
ZeroFrom-le zero zero a h z = z
ZeroFrom-le zero (suc m) [] h z = tt
ZeroFrom-le zero (suc m) (x ∷ a) h z = ZeroFrom-le zero m a (omega arith) z.1
ZeroFrom-le (suc k) zero a h z = absurd (omega arith)
ZeroFrom-le (suc k) (suc m) [] h z = tt
ZeroFrom-le (suc k) (suc m) (x ∷ a) h z = ZeroFrom-le k m a (omega arith) z

-- `N` limbs of 64 bits hold exactly the numbers below 2 ^ (64 N).
pub cap-eq-pow : (n : ℕ) → cap n ≡ radix ^ n
cap-eq-pow zero = refl
cap-eq-pow (suc n) = omega (arith, pow-suc radix n, cap-eq-pow n)
