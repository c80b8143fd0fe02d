-- ===== src/Tests/Field3.antt =====
-- The integers modulo 3: 3 is 3 modulo 4.
use sqisign_selkie.Prelude.{
  ◌≡◌, ◌≢◌, ◌↔◌, ◌⊎◌, inl, inr, refl, arith, ℕ, zero, suc, Bool, true, false, not, List, ◌∷◌,
  replicate, if◌then◌else◌,
}
use sqisign_selkie.Fields.Fp.{lowest_bit}

pub data F3 : Type 0 where
  f0 f1 f2 : F3

abbrev pub add : F3 → F3 → F3
add f0 y = y
add f1 f0 = f1
add f1 f1 = f2
add f1 f2 = f0
add f2 f0 = f2
add f2 f1 = f0
add f2 f2 = f1

abbrev pub neg : F3 → F3
neg f0 = f0
neg f1 = f2
neg f2 = f1

abbrev pub mul : F3 → F3 → F3
mul f0 y = f0
mul f1 y = y
mul f2 y = neg y

pub add_assoc : (a b c : F3) → add (add a b) c ≡ add a (add b c)
add_assoc a b c = ground arith

pub add_comm : (a b : F3) → add a b ≡ add b a
add_comm a b = ground arith

pub add_neg : (a : F3) → add a (neg a) ≡ f0
add_neg a = ground arith

pub mul_assoc : (a b c : F3) → mul (mul a b) c ≡ mul a (mul b c)
mul_assoc a b c = ground arith

pub mul_comm : (a b : F3) → mul a b ≡ mul b a
mul_comm a b = ground arith

pub mul_add : (a b c : F3) → mul a (add b c) ≡ add (mul a b) (mul a c)
mul_add a b c = ground arith

abbrev pub ct_eq : F3 → F3 → Bool
ct_eq f0 f0 = true
ct_eq f1 f1 = true
ct_eq f2 f2 = true
ct_eq f0 f1 = false
ct_eq f0 f2 = false
ct_eq f1 f0 = false
ct_eq f1 f2 = false
ct_eq f2 f0 = false
ct_eq f2 f1 = false

pub ct_eq_iff : (x y : F3) → (ct_eq x y ≡ true) ↔ (x ≡ y)
ct_eq_iff x y = ground arith

abbrev pub from_small : ℕ → F3
from_small zero = f0
from_small (suc n) = add (from_small n) f1

pub one_ne_zero : f1 ≢ f0
one_ne_zero e = cc

pub invert_lem : (x : F3) → x ≢ f0 → mul x x ≡ f1
invert_lem x h = ground arith

pub no_root : (x : F3) → mul x x ≢ f2
no_root f0 e = cc
no_root f1 e = cc
no_root f2 e = cc

abbrev pub is_square : F3 → Bool
is_square f0 = true
is_square f1 = true
is_square f2 = false

pub square_root : (x : F3) → is_square x ≡ true → mul x x ≡ x
square_root x h = ground arith

pub of_root : (s x : F3) → mul s s ≡ x → is_square x ≡ true
of_root s x h = ground arith

abbrev pub select : F3 → F3 → Bool → F3
select a b c = if c then b else a

abbrev pub byte : F3 → ℕ
byte f0 = 0
byte f1 = 1
byte f2 = 2

abbrev pub to_bytes : F3 → List ℕ
to_bytes x = byte x ∷ replicate 31 0

abbrev pub of_byte : ℕ → F3
of_byte zero = f0
of_byte (suc zero) = f1
of_byte (suc (suc n)) = f2

pub lowest_bit_neg :
    (x : F3) → x ≢ f0 → lowest_bit (to_bytes (neg x)) ≡ not (lowest_bit (to_bytes x))
lowest_bit_neg f0 h = absurd (h refl)
lowest_bit_neg f1 h = refl
lowest_bit_neg f2 h = refl

pub pow_lem : (x : F3) → x ≢ f0 → (mul x f1 ≡ f1) ⊎ (mul x f1 ≡ f2)
pow_lem f0 h = absurd (h refl)
pow_lem f1 h = inl refl
pow_lem f2 h = inr refl

pub two_ne_zero : add f1 f1 ≢ f0
two_ne_zero e = cc
