-- ===== src/Mag/Shift/Limb.antt =====
-- One limb of a shift: the bits that stay in a word and those that a neighbour moves into it.
use native.Mathlib.Nat.{
  div-one, mod-lt, mod-add-div, div-lt_iff_lt-mul, add-mul-div_left, mul-div-mul_right,
}
use sqisign_selkie.Prelude.{
  ℕ, zero, suc, ◌+◌, ◌-◌, ◌*◌, ◌/◌, ◌%◌, ◌^◌, ◌≤◌, ◌<◌, ◌≡◌, sym, ap, ◌∙◌, arith, ◌==◌, false,
}
use sqisign_selkie.Bits.{bit_or_disjoint, bit_or_comm}
use sqisign_selkie.Word.{radix, IsWord, ct_select_u64}
use sqisign_selkie.Word.Laws.{ct_select_u64-one}
use sqisign_selkie.Word.Count.{pow_pos}
use sqisign_selkie.Limbs.Low.{pow-add}
use sqisign_selkie.Mag.Shift.{shr_limb, shl_limb}

-- The parts of two neighbours that a shift by `r` joins, with p = 2 ^ r and g = 2 ^ (64 - r).
abbrev pub Joined : (p g x v out : ℕ) → Type 0
Joined p g x v out = (out + radix * (v / p) ≡ (x + radix * v) / p) × IsWord out

pub times : (a b c : ℕ) → a ≤ b → a * c ≤ b * c
times a b c h = grind arith

pub join_high : (p g v : ℕ) → 0 < p → p * g ≡ radix → v % p * g + g ≤ radix
join_high p g v pos e = omega (arith, e, times (suc (v % p)) p g (mod-lt v pos))

-- The carried word only counts for its lowest bits.
pub join_carry : (p g v : ℕ) → 0 < p → 0 < g → p * g ≡ radix → v % radix * g % radix ≡ v % p * g
join_carry p g v pos pos_g e = omega (
  arith,
  join_high p g v pos e,
  ap (λ (t : ℕ). t * g) (mod-add-div v radix),
  ap (λ (t : ℕ). t * g) (mod-add-div v p),
  ap (λ (t : ℕ). t * (v / p)) e,
)

pub join_low : (p g x : ℕ) → 0 < p → p * g ≡ radix → IsWord x → x / p < g
join_low p g x pos e hx = (div-lt_iff_lt-mul {x = x} {y = g} pos).1 (omega (arith, e, hx))

join_value : (p g x v : ℕ) → 0 < p → p * g ≡ radix → IsWord x → Joined p g x v (v % p * g + x / p)
join_value p g x v pos e hx =
    let same : x + radix * v ≡ x + p * (g * v) = omega (arith, ap (λ (t : ℕ). t * v) e) in
    let quotient : (x + radix * v) / p ≡ x / p + g * v =
      ap (λ (t : ℕ). t / p) same ∙ add-mul-div_left x (g * v) pos in
    (
      omega
          (arith, quotient, ap (λ (t : ℕ). t * g) (mod-add-div v p), ap (λ (t : ℕ). t * (v / p)) e),
      omega (arith, join_low p g x pos e hx, join_high p g v pos e),
    )

pub split_radix : (r : ℕ) → r ≤ 64 → 2 ^ r * 2 ^ (64 - r) ≡ radix
split_radix r h =
    let e : r + (64 - r) ≡ 64 = omega (arith, h) in
    sym (pow-add r (64 - r)) ∙ ap (λ (t : ℕ). 2 ^ t) e

pub shr_limb_value :
    (r x v : ℕ) → r < 64 → IsWord x → Joined (2 ^ r) (2 ^ (64 - r)) x v (shr_limb r x (v % radix))
unfolding shr_limb
shr_limb_value zero x v h hx = (omega (arith, div-one v, div-one (x + radix * v)), hx)
shr_limb_value (suc r) x v h hx =
    let e : suc r + (64 - suc r) ≡ 64 = omega (arith, h) in
    let powers : 2 ^ suc r * 2 ^ (64 - suc r) ≡ radix =
      sym (pow-add (suc r) (64 - suc r)) ∙ ap (λ (t : ℕ). 2 ^ t) e in
    let shifted : (suc r == 0) ≡ false = ground arith in
    let pos = pow_pos (suc r) in
    let pos_g = pow_pos (64 - suc r) in
    rw
      (
        shifted,
        join_carry (2 ^ suc r) (2 ^ (64 - suc r)) v pos pos_g powers,
        bit_or_comm (x / 2 ^ suc r) (v % 2 ^ suc r * 2 ^ (64 - suc r)),
        bit_or_disjoint (64 - suc r) (v % 2 ^ suc r) (x / 2 ^ suc r)
            (join_low (2 ^ suc r) (2 ^ (64 - suc r)) x pos powers hx),
      )
      (join_value (2 ^ suc r) (2 ^ (64 - suc r)) x v pos powers hx)

pub turned : (r : ℕ) → r < 64 → 2 ^ (64 - r) * 2 ^ r ≡ radix
turned r h = omega (arith, split_radix r (omega (arith, h)))

pub shl_kept : (r x : ℕ) → r < 64 → IsWord x → x * 2 ^ r % radix ≡ x % 2 ^ (64 - r) * 2 ^ r
shl_kept r x h hx =
    let word : x % radix ≡ x = omega (arith, hx) in
    ap (λ (t : ℕ). t * 2 ^ r % radix) (sym word)
    ∙ join_carry (2 ^ (64 - r)) (2 ^ r) x (pow_pos (64 - r)) (pow_pos r) (turned r h)

pub shl_below : (r c : ℕ) → r < 64 → IsWord c → c / 2 ^ (64 - r) < 2 ^ r
shl_below r c h hc = join_low (2 ^ (64 - r)) (2 ^ r) c (pow_pos (64 - r)) (turned r h) hc

pub shl-IsWord :
    (r x c : ℕ) → r < 64 → IsWord x → IsWord c → IsWord (x * 2 ^ r % radix + c / 2 ^ (64 - r))
shl-IsWord r x c h hx hc = omega (
  arith,
  shl_kept r x h hx,
  shl_below r c h hc,
  join_high (2 ^ (64 - r)) (2 ^ r) x (pow_pos (64 - r)) (turned r h),
)

pub shl_limb_value :
    (r x c : ℕ)
    → r < 64
    → IsWord x
    → IsWord c
    → shl_limb r x c ≡ x * 2 ^ r % radix + c / 2 ^ (64 - r)
unfolding shl_limb
shl_limb_value zero x c h hx hc = omega arith
shl_limb_value (suc r) x c h hx hc =
    let shifted : (suc r == 0) ≡ false = ground arith in
    rw (shifted, shl_kept (suc r) x h hx)
      (bit_or_disjoint (suc r) (x % 2 ^ (64 - suc r)) (c / 2 ^ (64 - suc r))
        (shl_below (suc r) c h hc))

pub shl_select :
    (r x c : ℕ)
    → r < 64
    → IsWord x
    → IsWord c
    → ct_select_u64 (ct_select_u64 0 0 1) (shl_limb r x c) 1 ≡ x * 2 ^ r % radix + c / 2 ^ (64 - r)
shl_select r x c h hx hc =
    rw (ct_select_u64-one 0 0 (omega arith) (omega arith), shl_limb_value r x c h hx hc)
      (ct_select_u64-one 0 (x * 2 ^ r % radix + c / 2 ^ (64 - r)) (omega arith)
        (shl-IsWord r x c h hx hc))

-- A word that is shifted to the left is its low part and what moves on.
pub shl_parts : (r x : ℕ) → r < 64 → x * 2 ^ r % radix + radix * (x / 2 ^ (64 - r)) ≡ x * 2 ^ r
shl_parts r x h =
    let moved : x * 2 ^ r / radix ≡ x / 2 ^ (64 - r) =
      ap (λ (t : ℕ). x * 2 ^ r / t) (sym (turned r h))
      ∙ mul-div-mul_right x (2 ^ (64 - r)) (pow_pos r) in
    omega (arith, moved)
