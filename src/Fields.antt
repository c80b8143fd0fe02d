-- ===== src/Fields.antt =====
-- The fields of src/fields: the interface to the prime field, and its quadratic extension.
pub mod Laws
pub mod Fp
pub mod Fp2
use sqisign_selkie.Prelude.{◌≡◌, ◌≢◌, ◌↔◌, ℕ, suc, Bool, true}
use sqisign_selkie.Ring.{CommRing}

-- A field whose equality is decided, with the constants that `from_small` makes.
pub record Field : Type 1 where
  pub ring : CommRing
  pub invert : ring.Carrier → ring.Carrier
  pub ct_eq : ring.Carrier → ring.Carrier → Bool
  pub from_small : ℕ → ring.Carrier
  pub one_ne_zero : ring.one ≢ ring.zero
  pub invert_lem : (x : ring.Carrier) → x ≢ ring.zero → ring.mul x (invert x) ≡ ring.one
  pub ct_eq_iff : (x y : ring.Carrier) → (ct_eq x y ≡ true) ↔ (x ≡ y)
  pub from_small_zero : from_small 0 ≡ ring.zero
  pub from_small_suc : (n : ℕ) → from_small (suc n) ≡ ring.add (from_small n) ring.one
