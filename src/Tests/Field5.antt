-- ===== src/Tests/Field5.antt =====
-- The integers modulo 5, a field where 3 is not zero.
use sqisign_selkie.Prelude.{◌≡◌, ◌≢◌, ◌↔◌, refl, arith, ℕ, zero, suc, Bool, true, false}
use sqisign_selkie.Fields.{Field}

pub data F5 : Type 0 where
  g0 g1 g2 g3 g4 : F5

abbrev pub next : F5 → F5
next g0 = g1
next g1 = g2
next g2 = g3
next g3 = g4
next g4 = g0

abbrev pub add : F5 → F5 → F5
add g0 y = y
add g1 y = next y
add g2 y = next (next y)
add g3 y = next (next (next y))
add g4 y = next (next (next (next y)))

abbrev pub neg : F5 → F5
neg g0 = g0
neg g1 = g4
neg g2 = g3
neg g3 = g2
neg g4 = g1

abbrev pub mul : F5 → F5 → F5
mul g0 y = g0
mul g1 y = y
mul g2 y = add y y
mul g3 y = add y (add y y)
mul g4 y = neg y

abbrev pub invert : F5 → F5
invert g0 = g0
invert g1 = g1
invert g2 = g3
invert g3 = g2
invert g4 = g4

abbrev pub is_zero : F5 → Bool
is_zero g0 = true
is_zero g1 = false
is_zero g2 = false
is_zero g3 = false
is_zero g4 = false

abbrev pub ct_eq : F5 → F5 → Bool
ct_eq x y = is_zero (add x (neg y))

pub add_assoc : (a b c : F5) → add (add a b) c ≡ add a (add b c)
add_assoc a b c = ground arith

pub add_comm : (a b : F5) → add a b ≡ add b a
add_comm a b = ground arith

pub add_neg : (a : F5) → add a (neg a) ≡ g0
add_neg a = ground arith

pub mul_assoc : (a b c : F5) → mul (mul a b) c ≡ mul a (mul b c)
mul_assoc a b c = ground arith

pub mul_comm : (a b : F5) → mul a b ≡ mul b a
mul_comm a b = ground arith

pub mul_add : (a b c : F5) → mul a (add b c) ≡ add (mul a b) (mul a c)
mul_add a b c = ground arith

pub ct_eq_iff : (x y : F5) → (ct_eq x y ≡ true) ↔ (x ≡ y)
ct_eq_iff x y = ground arith

abbrev pub from_small : ℕ → F5
from_small zero = g0
from_small (suc n) = add (from_small n) g1

pub one_ne_zero : g1 ≢ g0
one_ne_zero e = cc

pub invert_lem : (x : F5) → x ≢ g0 → mul x (invert x) ≡ g1
invert_lem x h = ground arith

abbrev pub field5 : Field
field5 = record {
  ring = record {
    Carrier = F5;
    zero = g0;
    one = g1;
    add = add;
    sub = λ a b. add a (neg b);
    neg = neg;
    mul = mul;
    square = λ a. mul a a;
    add_assoc = add_assoc;
    add_comm = add_comm;
    zero_add = λ a. refl;
    add_neg = add_neg;
    sub_lem = λ a b. refl;
    mul_assoc = mul_assoc;
    mul_comm = mul_comm;
    one_mul = λ a. refl;
    mul_add = mul_add;
    square_lem = λ a. refl;
  };
  invert = invert;
  ct_eq = ct_eq;
  from_small = from_small;
  one_ne_zero = one_ne_zero;
  invert_lem = invert_lem;
  ct_eq_iff = ct_eq_iff;
  from_small_zero = refl;
  from_small_suc = λ n. refl;
}
