-- ===== src/Mag/Mul.antt =====
-- Multiplication of magnitudes, src/quaternions/bigint/mul.rs: the portable schoolbook product,
-- truncated to `N` limbs, and the length-bounded one.
pub mod Value
pub mod Short
use sqisign_selkie.Prelude.{
  ℕ, zero, suc, ◌+◌, ◌*◌, ◌/◌, ◌%◌, ◌^◌, List, [], ◌∷◌, length, ◌==◌, if◌then◌else◌,
}
use sqisign_selkie.Word.{radix}
use sqisign_selkie.Limbs.{zeros}

-- Row `i` of the product, over the limbs of `result` from index `i + j` on and those of `b` from
-- index `j` on; it ends with the array.
pub mul_row : List ℕ → ℕ → List ℕ → ℕ → List ℕ
mul_row [] x ys carry = []
mul_row (r ∷ rs) x [] carry = r ∷ rs
mul_row (r ∷ rs) x (y ∷ ys) carry =
    let prod = r + x * y + carry in prod % radix ∷ mul_row rs x ys (prod / 2 ^ 64 % radix)

-- The limb at index `i` is final after row `i`; the later rows go on with the limbs above it.
abbrev pub keep_lowest : (List ℕ → List ℕ) → List ℕ → List ℕ
keep_lowest rows [] = []
keep_lowest rows (r ∷ rest) = r ∷ rows rest

-- The rows from `i` on, over the limbs of `a` and `result` from index `i` on.
pub mag_mul_loop : List ℕ → List ℕ → List ℕ → List ℕ
mag_mul_loop [] rs b = rs
mag_mul_loop (x ∷ xs) rs b = keep_lowest (λ rest. mag_mul_loop xs rest b) (mul_row rs x b 0)

pub mag_mul : List ℕ → List ℕ → List ℕ
mag_mul a b = mag_mul_loop a (zeros (length a)) b

-- `while carry != 0 && k < N`
pub propagate_product : List ℕ → ℕ → List ℕ
propagate_product [] carry = []
propagate_product (r ∷ rs) carry =
    let s = r + carry in
    let rest = propagate_product rs (s / 2 ^ 64 % radix) in
    if carry == 0 then r ∷ rs else s % radix ∷ rest

-- A row that stops after `left` limbs of `b`, and then moves the carry on.
pub mul_short_row : ℕ → List ℕ → ℕ → List ℕ → ℕ → List ℕ
mul_short_row zero rs x ys carry = propagate_product rs carry
mul_short_row (suc left) [] x ys carry = []
mul_short_row (suc left) (r ∷ rs) x [] carry = r ∷ rs
mul_short_row (suc left) (r ∷ rs) x (y ∷ ys) carry =
    let prod = r + x * y + carry in
    prod % radix ∷ mul_short_row left rs x ys (prod / 2 ^ 64 % radix)

-- The rows `i < la`, with `la - i` of them left.
pub mag_mul_short_loop : ℕ → List ℕ → List ℕ → List ℕ → ℕ → List ℕ
mag_mul_short_loop zero xs rs b lb = rs
mag_mul_short_loop (suc left) [] rs b lb = rs
mag_mul_short_loop (suc left) (x ∷ xs) rs b lb =
    keep_lowest (λ rest. mag_mul_short_loop left xs rest b lb) (mul_short_row lb rs x b 0)

pub mag_mul_short : List ℕ → List ℕ → ℕ → ℕ → List ℕ
mag_mul_short a b la lb = mag_mul_short_loop la a (zeros (length a)) b lb
