-- ===== src/Mag/Compare/Value.antt =====
-- The tests for zero and for equality, and selection, as statements about magnitudes.
use sqisign_selkie.Bits.{le-bit_or, bit_or-zero, bit_xor_self, eq_of_bit_xor-zero}
use sqisign_selkie.Prelude.{
  ℕ, zero, suc, ◌≡◌, refl, ap, ap₂, ◌∙◌, arith, bit_or, bit_xor, List, [], ◌∷◌, ◌==◌,
}
use sqisign_selkie.Word.{as_u64}
use sqisign_selkie.Word.Laws.{ct_select_u64-zero, ct_select_u64-one}
use sqisign_selkie.Limbs.{IsLimbs, val, AllZero}
use sqisign_selkie.Limbs.Laws.{AllZero-val, val-AllZero, val_injective}
use sqisign_selkie.Mag.Compare.{or_limbs, mag_is_zero, mag_eq_loop, mag_eq, mag_select}

pub or_limbs-AllZero : (a : List ℕ) → AllZero a → or_limbs a 0 ≡ 0
unfolding or_limbs
or_limbs-AllZero [] h = refl
or_limbs-AllZero (x ∷ a) h = rw (h.0, bit_or-zero 0) (or_limbs-AllZero a h.1)

pub zero-or_limbs : (a : List ℕ) (acc : ℕ) → or_limbs a acc ≡ 0 → (acc ≡ 0) × AllZero a
unfolding or_limbs
zero-or_limbs [] acc h = (h, tt)
zero-or_limbs (x ∷ a) acc h =
    let (acc_zero, rest) = zero-or_limbs a (bit_or acc x) h in
    let bound = le-bit_or acc x in (omega arith, (omega arith, rest))

pub or_limbs_value : (a : List ℕ) → as_u64 (or_limbs a 0 == 0) ≡ as_u64 (val a == 0)
or_limbs_value a = ground (
  arith,
  λ (h : val a ≡ 0). or_limbs-AllZero a (val-AllZero a h),
  λ (h : or_limbs a 0 ≡ 0). AllZero-val a (zero-or_limbs a 0 h).1,
)

-- The flag says whether the magnitude is 0.
pub mag_is_zero_value : (a : List ℕ) → mag_is_zero a ≡ as_u64 (val a == 0)
unfolding mag_is_zero
mag_is_zero_value a = or_limbs_value a

mag_eq_loop_self : (a : List ℕ) → mag_eq_loop a a 0 ≡ 0
unfolding mag_eq_loop
mag_eq_loop_self [] = refl
mag_eq_loop_self (x ∷ a) = rw (bit_xor_self x, bit_or-zero 0) (mag_eq_loop_self a)

eq_of_mag_eq_loop :
    (n : ℕ) (a b : List ℕ) (acc : ℕ)
    → IsLimbs n a
    → IsLimbs n b
    → mag_eq_loop a b acc ≡ 0
    → (acc ≡ 0) × (a ≡ b)
unfolding mag_eq_loop
eq_of_mag_eq_loop zero [] [] acc ha hb h = (h, refl)
eq_of_mag_eq_loop zero [] (y ∷ b) acc ha hb h = elim hb [ ]
eq_of_mag_eq_loop zero (x ∷ a) b acc ha hb h = elim ha [ ]
eq_of_mag_eq_loop (suc n) [] b acc ha hb h = elim ha [ ]
eq_of_mag_eq_loop (suc n) (x ∷ a) [] acc ha hb h = elim hb [ ]
eq_of_mag_eq_loop (suc n) (x ∷ a) (y ∷ b) acc ha hb h =
    let (acc_zero, rest) = eq_of_mag_eq_loop n a b (bit_or acc (bit_xor x y)) ha.1 hb.1 h in
    let bound = le-bit_or acc (bit_xor x y) in
    (omega arith, ap₂ ◌∷◌ (eq_of_bit_xor-zero x y (omega arith)) rest)

-- The flag says whether the magnitudes are equal.
pub mag_eq_value :
    (n : ℕ) (a b : List ℕ) → IsLimbs n a → IsLimbs n b → mag_eq a b ≡ as_u64 (val a == val b)
unfolding mag_eq
mag_eq_value n a b ha hb = ground (
  arith,
  λ (e : val a ≡ val b).
      ap (λ c. mag_eq_loop a c 0) (val_injective n b a hb ha (omega arith)) ∙ mag_eq_loop_self a,
  λ (h : mag_eq_loop a b 0 ≡ 0). ap val (eq_of_mag_eq_loop n a b 0 ha hb h).1,
)

pub mag_select-zero : (n : ℕ) (a b : List ℕ) → IsLimbs n a → IsLimbs n b → mag_select a b 0 ≡ a
unfolding mag_select
mag_select-zero zero [] b ha hb = refl
mag_select-zero zero (x ∷ a) b ha hb = elim ha [ ]
mag_select-zero (suc n) [] b ha hb = elim ha [ ]
mag_select-zero (suc n) (x ∷ a) [] ha hb = elim hb [ ]
mag_select-zero (suc n) (x ∷ a) (y ∷ b) ha hb =
    ap₂ ◌∷◌ (ct_select_u64-zero x y) (mag_select-zero n a b ha.1 hb.1)

pub mag_select-one : (n : ℕ) (a b : List ℕ) → IsLimbs n a → IsLimbs n b → mag_select a b 1 ≡ b
unfolding mag_select
mag_select-one zero [] [] ha hb = refl
mag_select-one zero [] (y ∷ b) ha hb = elim hb [ ]
mag_select-one zero (x ∷ a) b ha hb = elim ha [ ]
mag_select-one (suc n) [] b ha hb = elim ha [ ]
mag_select-one (suc n) (x ∷ a) [] ha hb = elim hb [ ]
mag_select-one (suc n) (x ∷ a) (y ∷ b) ha hb =
    ap₂ ◌∷◌ (ct_select_u64-one x y ha.0 hb.0) (mag_select-one n a b ha.1 hb.1)

pub or_limbs_four :
    (e f g h : ℕ) → or_limbs (e ∷ f ∷ g ∷ h ∷ []) 0 ≡ bit_or (bit_or (bit_or (bit_or 0 e) f) g) h
unfolding or_limbs
or_limbs_four e f g h = refl
