-- ===== src/BigInt/Bits/Value.antt =====
-- The bit size and the parity of the integer that a value stands for.
use sqisign_selkie.Prelude.{
  ℕ, zero, suc, ◌*◌, ◌%◌, ◌≤◌, ◌≡◌, refl, arith, ◌==◌, List, [], ◌∷◌, get_or, bit_and,
}
use sqisign_selkie.Int.{abs_ℤ, signed}
use sqisign_selkie.Bits.{mask-bit_and, bit_and_comm}
use sqisign_selkie.Word.{as_u64}
use sqisign_selkie.Word.Count.{IsBitLength}
use sqisign_selkie.Limbs.{IsLimbs, val}
use sqisign_selkie.Mag.Bits.Value.{mag_bitsize_loop_value}
use sqisign_selkie.BigInt.{BigInt, IsBigInt, to_ℤ}
use sqisign_selkie.BigInt.Bits.{bitsize, is_even, is_odd}

abs-signed : (s m : ℕ) → abs_ℤ (signed s m) ≡ m
abs-signed zero m = omega arith
abs-signed (suc s) m = ground arith

-- `bitsize` is the bit length of the absolute value, and at most 64 for each limb.
pub bitsize_value :
    (n : ℕ) (x : BigInt)
    → IsBigInt n x
    → IsBitLength (abs_ℤ (to_ℤ x)) (bitsize x) × (bitsize x ≤ 64 * n)
unfolding bitsize
bitsize_value n x h =
    rw (abs-signed x.sign (val x.limbs)) (mag_bitsize_loop_value n x.limbs h.words)

low_parity : (n : ℕ) (a : List ℕ) → IsLimbs n a → bit_and (get_or a 0 0) 1 ≡ val a % 2
low_parity zero [] h = refl
low_parity zero (x ∷ a) h = elim h [ ]
low_parity (suc n) [] h = elim h [ ]
low_parity (suc n) (x ∷ a) h = omega (arith, bit_and_comm x 1, mask-bit_and 1 x)

-- `is_odd` is the parity of the absolute value, and `is_even` its complement.
pub parity_value :
    (n : ℕ) (x : BigInt)
    → IsBigInt n x
    → (is_odd x ≡ abs_ℤ (to_ℤ x) % 2) × (is_even x ≡ as_u64 (abs_ℤ (to_ℤ x) % 2 == 0))
unfolding is_odd is_even
parity_value n x h = rw (abs-signed x.sign (val x.limbs), low_parity n x.limbs h.words) (refl, refl)
