-- ===== src/Ring.antt =====
-- Commutative rings as an interface: the field layer of src/fields is used through these operations
-- and laws, and the integers fill it too. The operations are those of `Fp` and `Fp2`.
pub mod Laws
pub mod Polynomial
pub mod Sound
pub mod Relations
pub mod Integers
use sqisign_selkie.Prelude.{◌≡◌}

pub record CommRing : Type 1 where
  pub Carrier : Type 0
  pub zero : Carrier
  pub one : Carrier
  pub add : Carrier → Carrier → Carrier
  pub sub : Carrier → Carrier → Carrier
  pub neg : Carrier → Carrier
  pub mul : Carrier → Carrier → Carrier
  pub square : Carrier → Carrier
  pub add_assoc : (a b c : Carrier) → add (add a b) c ≡ add a (add b c)
  pub add_comm : (a b : Carrier) → add a b ≡ add b a
  pub zero_add : (a : Carrier) → add zero a ≡ a
  pub add_neg : (a : Carrier) → add a (neg a) ≡ zero
  pub sub_lem : (a b : Carrier) → sub a b ≡ add a (neg b)
  pub mul_assoc : (a b c : Carrier) → mul (mul a b) c ≡ mul a (mul b c)
  pub mul_comm : (a b : Carrier) → mul a b ≡ mul b a
  pub one_mul : (a : Carrier) → mul one a ≡ a
  pub mul_add : (a b c : Carrier) → mul a (add b c) ≡ add (mul a b) (mul a c)
  pub square_lem : (a : Carrier) → square a ≡ mul a a
