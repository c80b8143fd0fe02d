-- ===== src/BigInt/Shift/Value.antt =====
-- A shift to the right divides the integer by a power of two.
use sqisign_selkie.Prelude.{ℕ, ◌/◌, ◌*◌, ◌%◌, ◌^◌, ◌≡◌, refl, ap, ◌∙◌}
use sqisign_selkie.Int.{signed}
use sqisign_selkie.Limbs.{val, cap}
use sqisign_selkie.Mag.Shift.Value.{mag_shr_value}
use sqisign_selkie.Mag.Shift.Left.{mag_shl_value}
use sqisign_selkie.BigInt.{BigInt, IsBigInt, IsCanonical, to_ℤ, canonicalize}
use sqisign_selkie.BigInt.Sign.{canonicalize_lem}
use sqisign_selkie.BigInt.Shift.{shr, shl}
use sqisign_selkie.Mag.Shift.{mag_shr}

shr-canonicalize : (x : BigInt) (s : ℕ) → shr x s ≡ canonicalize x.sign (mag_shr x.limbs s)
unfolding shr canonicalize
shr-canonicalize x s = refl

-- `>>` divides the magnitude by 2 ^ s and keeps the sign, so it rounds toward zero; the result is
-- canonical and keeps the width.
pub shr_value :
    (n : ℕ) (x : BigInt) (s : ℕ)
    → IsBigInt n x
    → (to_ℤ (shr x s) ≡ signed x.sign (val x.limbs / 2 ^ s))
      × IsBigInt n (shr x s)
      × IsCanonical (shr x s)
shr_value n x s h =
    let (e, words) = mag_shr_value n x.limbs s h.words in
    let (value, valid, canonical) = canonicalize_lem n x.sign (mag_shr x.limbs s) h.flag words in
    rw (shr-canonicalize x s) (value ∙ ap (signed x.sign) e, valid, canonical)

-- `<<` multiplies the magnitude by 2 ^ s modulo the bound and keeps the sign and the width; the sign
-- of a result that is zero is not cleared.
pub shl_value :
    (n : ℕ) (x : BigInt) (s : ℕ)
    → IsBigInt n x
    → (to_ℤ (shl x s) ≡ signed x.sign (val x.limbs * 2 ^ s % cap n))
      × IsBigInt n (shl x s)
      × ((shl x s).sign ≡ x.sign)
unfolding shl
shl_value n x s h =
    let (e, words) = mag_shl_value n x.limbs s h.words in
    (ap (signed x.sign) e, record { flag = h.flag; words = words }, refl)
