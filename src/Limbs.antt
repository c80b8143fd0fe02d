-- ===== src/Limbs.antt =====
-- Limb arrays `[u64; N]`, least significant limb first: their bounds, and the number that such an
-- array stands for.
pub mod Laws
pub mod Low
use sqisign_selkie.Prelude.{ℕ, zero, suc, ◌+◌, ◌*◌, ◌≡◌, List, [], ◌∷◌, replicate}
use sqisign_selkie.Word.{radix, IsWord}

-- An array of `n` words.
abbrev pub IsLimbs : ℕ → List ℕ → Type 0
IsLimbs zero [] = Unit
IsLimbs zero (x ∷ xs) = ⊥
IsLimbs (suc n) [] = ⊥
IsLimbs (suc n) (x ∷ xs) = IsWord x × IsLimbs n xs

-- The magnitude.
abbrev pub val : List ℕ → ℕ
val [] = 0
val (x ∷ xs) = x + radix * val xs

-- The bound of the magnitudes of `n` limbs.
abbrev pub cap : ℕ → ℕ
cap zero = 1
cap (suc n) = radix * cap n

-- `[0u64; N]`
abbrev pub zeros : ℕ → List ℕ
zeros n = replicate n 0

abbrev pub AllZero : List ℕ → Type 0
AllZero [] = Unit
AllZero (x ∷ xs) = (x ≡ 0) × AllZero xs

-- The limbs from index `k` on are zero.
abbrev pub ZeroFrom : ℕ → List ℕ → Type 0
ZeroFrom zero xs = AllZero xs
ZeroFrom (suc k) [] = Unit
ZeroFrom (suc k) (x ∷ xs) = ZeroFrom k xs
