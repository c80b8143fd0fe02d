-- ===== src/BigInt/Mac.antt =====
-- Sums of signed terms: src/quaternions/bigint/mac.rs. Each sign has a running total, an array of
-- limbs with one word of headroom.
pub mod Total
pub mod Value
use sqisign_selkie.Prelude.{ℕ, zero, suc, ◌+◌, ◌-◌, bit_and, bit_or, Bool, ◌||◌, List, [], ◌∷◌}
use sqisign_selkie.Word.{radix, as_u64, wrapping_add, wrapping_sub, overflowing_sub}
use sqisign_selkie.Limbs.{zeros}
use sqisign_selkie.Mag.Add.{add_limb}
use sqisign_selkie.Mag.Sub.{mag_sub, mag_negate}
use sqisign_selkie.Mag.Compare.{mag_is_zero, mag_select}
use sqisign_selkie.BigInt.{BigInt}

pub record Totals : Type 0 where
  pub pos : List ℕ
  pub pos_hi : ℕ
  pub neg : List ℕ
  pub neg_hi : ℕ

-- The limb loop of one total: `limb & mask` is added with the carry.
pub masked_add : List ℕ → List ℕ → ℕ → ℕ → List ℕ × ℕ
masked_add [] limbs mask carry = ([], carry)
masked_add (s ∷ sums) [] mask carry = ([], carry)
masked_add (s ∷ sums) (limb ∷ limbs) mask carry =
    let (s2, c) = add_limb s (bit_and limb mask) carry in
    let (rest, out) = masked_add sums limbs mask c in (s2 ∷ rest, out)

-- One term. The loop over the limbs keeps the two totals and their carries apart.
pub mac_term : Totals → BigInt → Totals
mac_term m t =
    let pos_mask = wrapping_sub t.sign 1 in
    let neg_mask = radix - 1 - pos_mask in
    let (pos', cp) = masked_add m.pos t.limbs pos_mask 0 in
    let (neg', cn) = masked_add m.neg t.limbs neg_mask 0 in
    record {
      pos = pos';
      pos_hi = wrapping_add m.pos_hi cp;
      neg = neg';
      neg_hi = wrapping_add m.neg_hi cn;
    }

pub mac_loop : List BigInt → Totals → Totals
mac_loop [] m = m
mac_loop (t ∷ terms) m = mac_loop terms (mac_term m t)

pub mac_finalize : Totals → BigInt
mac_finalize m =
    let (diff_a, borrow) = mag_sub m.pos m.neg in
    let (hi_a, hb) = overflowing_sub m.pos_hi m.neg_hi in
    let (_, hb2) = overflowing_sub hi_a borrow in
    let pos_ge = 1 - as_u64 (hb || hb2) in
    let diff_b = mag_negate diff_a in
    let limbs = mag_select diff_b diff_a pos_ge in
    let result_sign = bit_and (1 - pos_ge) (1 - mag_is_zero limbs) in
    record { sign = result_sign; limbs = limbs }

pub mac_sum : ℕ → List BigInt → BigInt
mac_sum n terms =
    mac_finalize (mac_loop terms (record { pos = zeros n; pos_hi = 0; neg = zeros n; neg_hi = 0 }))
