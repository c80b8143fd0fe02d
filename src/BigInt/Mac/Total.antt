-- ===== src/BigInt/Mac/Total.antt =====
-- The running totals: each term is added to the total of its sign, and the headroom word never
-- overflows within 2 ^ 64 terms.
use sqisign_selkie.Bits.{bit_and_comm, mask-bit_and, bit_and-zero}
use sqisign_selkie.Prelude.{
  ℕ, zero, suc, ◌+◌, ◌-◌, ◌*◌, ◌≤◌, ◌<◌, ◌≡◌, ◌∙◌, arith, bit_and, List, [], ◌∷◌, length,
}
use sqisign_selkie.Word.{radix, IsWord, wrapping_add, wrapping_sub}
use sqisign_selkie.Limbs.{IsLimbs, val, cap}
use sqisign_selkie.Mag.Add.{add_limb}
use sqisign_selkie.Mag.Add.Value.{add_limb_value}
use sqisign_selkie.BigInt.{BigInt, IsBigInt}
use sqisign_selkie.BigInt.Mac.{Totals, masked_add, mac_term, mac_loop}

-- The factor by which a mask keeps a limb: all ones keep it, zero drops it.
record IsMask (mask keep : ℕ) : Type 0 where
  acts : (x : ℕ) → IsWord x → bit_and x mask ≡ x * keep
  flag : keep ≤ 1

ones-IsMask : IsMask (radix - 1) 1
ones-IsMask = record {
  acts = λ x h. bit_and_comm x (radix - 1) ∙ mask-bit_and 64 x ∙ omega arith;
  flag = omega arith;
}

none-IsMask : IsMask 0 0
none-IsMask = record { acts = λ x h. bit_and-zero x ∙ omega arith; flag = omega arith }

kept-IsWord : (x keep : ℕ) → IsWord x → keep ≤ 1 → IsWord (x * keep)
kept-IsWord x zero h g = omega arith
kept-IsWord x (suc zero) h g = omega arith
kept-IsWord x (suc (suc keep)) h g = absurd (omega arith)

masked_add_value :
    (n : ℕ) (sums limbs : List ℕ) (mask keep c : ℕ)
    → IsMask mask keep
    → IsLimbs n sums
    → IsLimbs n limbs
    → c ≤ 1
    → (val (masked_add sums limbs mask c).0 + cap n * (masked_add sums limbs mask c).1
        ≡ val sums + val limbs * keep + c)
      × IsLimbs n (masked_add sums limbs mask c).0
      × ((masked_add sums limbs mask c).1 ≤ 1)
unfolding masked_add
masked_add_value zero [] [] mask keep c hm hs hl hc = (omega arith, tt, hc)
masked_add_value zero [] (x ∷ limbs) mask keep c hm hs hl hc = elim hl [ ]
masked_add_value zero (s ∷ sums) limbs mask keep c hm hs hl hc = elim hs [ ]
masked_add_value (suc n) [] limbs mask keep c hm hs hl hc = elim hs [ ]
masked_add_value (suc n) (s ∷ sums) [] mask keep c hm hs hl hc = elim hl [ ]
masked_add_value (suc n) (s ∷ sums) (x ∷ limbs) mask keep c hm hs hl hc =
    let kept = hm.acts x hl.0 in
    let word = kept-IsWord x keep hl.0 hm.flag in
    let (sum, low, carry) = add_limb_value s (bit_and x mask) c hs.0 (rw kept word) hc in
    let (value, words, out) =
      masked_add_value n sums limbs mask keep (add_limb s (bit_and x mask) c).1 hm hs.1 hl.1
        carry in
    (omega arith, (low, words), out)

-- The part of a term that goes to the total of the sign `0`, and to that of the sign `1`.
abbrev pub pos_magnitude : BigInt → ℕ
pos_magnitude t = val t.limbs * (1 - t.sign)

abbrev pub neg_magnitude : BigInt → ℕ
neg_magnitude t = val t.limbs * t.sign

-- After at most `k` terms the totals stand for `p` and `q`.
pub record IsTotals (n k p q : ℕ) (m : Totals) : Type 0 where
  pub pos_words : IsLimbs n m.pos
  pub neg_words : IsLimbs n m.neg
  pub pos_value : val m.pos + cap n * m.pos_hi ≡ p
  pub neg_value : val m.neg + cap n * m.neg_hi ≡ q
  pub pos_room : m.pos_hi ≤ k
  pub neg_room : m.neg_hi ≤ k

sign_masks :
    (s : ℕ) → s ≤ 1 → IsMask (wrapping_sub s 1) (1 - s) × IsMask (radix - 1 - wrapping_sub s 1) s
sign_masks zero h = (ones-IsMask, none-IsMask)
sign_masks (suc zero) h = (none-IsMask, ones-IsMask)
sign_masks (suc (suc s)) h = absurd (omega arith)

headroom :
    (low low' mag c p hi carry : ℕ)
    → low' + c * carry ≡ low + mag + 0
    → low + c * hi ≡ p
    → hi + carry < radix
    → low' + c * wrapping_add hi carry ≡ p + mag
headroom low low' mag c p hi carry e f room =
    let same : wrapping_add hi carry ≡ hi + carry = omega arith in rw same (omega arith)

mac_term-IsTotals :
    (n k p q : ℕ) (m : Totals) (t : BigInt)
    → IsTotals n k p q m
    → IsBigInt n t
    → suc k < radix
    → IsTotals n (suc k) (p + pos_magnitude t) (q + neg_magnitude t) (mac_term m t)
unfolding mac_term
mac_term-IsTotals n k p q m t hm ht room =
    let (pos_mask, neg_mask) = sign_masks t.sign ht.flag in
    let (pos_sum, pos_words, pos_carry) =
      masked_add_value n m.pos t.limbs (wrapping_sub t.sign 1) (1 - t.sign) 0 pos_mask hm.pos_words
        ht.words (omega arith) in
    let (neg_sum, neg_words, neg_carry) =
      masked_add_value n m.neg t.limbs (radix - 1 - wrapping_sub t.sign 1) t.sign 0 neg_mask
        hm.neg_words ht.words (omega arith) in
    let pos_room = hm.pos_room in
    let neg_room = hm.neg_room in
    record {
      pos_words = pos_words;
      neg_words = neg_words;
      pos_value = headroom _ _ _ (cap n) p m.pos_hi _ pos_sum hm.pos_value (omega arith);
      neg_value = headroom _ _ _ (cap n) q m.neg_hi _ neg_sum hm.neg_value (omega arith);
      pos_room = omega arith;
      neg_room = omega arith;
    }

abbrev pub pos_sum : List BigInt → ℕ
pos_sum [] = 0
pos_sum (t ∷ terms) = pos_magnitude t + pos_sum terms

abbrev pub neg_sum : List BigInt → ℕ
neg_sum [] = 0
neg_sum (t ∷ terms) = neg_magnitude t + neg_sum terms

abbrev pub AllBigInt : ℕ → List BigInt → Type 0
AllBigInt n [] = Unit
AllBigInt n (t ∷ terms) = IsBigInt n t × AllBigInt n terms

pub mac_loop-IsTotals :
    (n k p q : ℕ) (terms : List BigInt) (m : Totals)
    → IsTotals n k p q m
    → AllBigInt n terms
    → length terms + k < radix
    → IsTotals n (length terms + k) (p + pos_sum terms) (q + neg_sum terms) (mac_loop terms m)
unfolding mac_loop
mac_loop-IsTotals n k p q [] m hm ht room = record {
  pos_words = hm.pos_words;
  neg_words = hm.neg_words;
  pos_value = omega (arith, hm.pos_value);
  neg_value = omega (arith, hm.neg_value);
  pos_room = omega (arith, hm.pos_room);
  neg_room = omega (arith, hm.neg_room);
}
mac_loop-IsTotals n k p q (t ∷ terms) m hm ht room =
    let rest =
      mac_loop-IsTotals n (suc k) (p + pos_magnitude t) (q + neg_magnitude t) terms (mac_term m t)
        (mac_term-IsTotals n k p q m t hm ht.0 (omega arith)) ht.1 (omega arith) in
    record {
      pos_words = rest.pos_words;
      neg_words = rest.neg_words;
      pos_value = omega (arith, rest.pos_value);
      neg_value = omega (arith, rest.neg_value);
      pos_room = omega (arith, rest.pos_room);
      neg_room = omega (arith, rest.neg_room);
    }
