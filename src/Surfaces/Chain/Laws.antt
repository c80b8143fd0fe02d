-- ===== src/Surfaces/Chain/Laws.antt =====
-- The stack of the chain stays in order, so it never panics, its loops end, and the main loop makes one
-- step for each of the steps that remain.
use sqisign_selkie.Prelude.{
  ◌≡◌, refl, ℕ, zero, suc, ◌-◌, ◌<◌, ◌≤◌, false, true, some, List, [], ◌∷◌, map, ◌==◌, ltb, arith,
  Bool-cases, inl, inr, ==_iff,
}
use sqisign_selkie.Fields.{Field}
use sqisign_selkie.Surfaces.{Jacobian, JacobianPoint}
use sqisign_selkie.Surfaces.Step.{
  EightTorsionStepKernel, interior, penultimate, ultimate, eight_isogeny, eval,
}
use sqisign_selkie.Surfaces.Chain.{
  curve_doublings, theta_doublings, Stack, descend, lowered, finished,
}

-- The orders of a stack: the first pushed is n, and every later one is at least 1 and below the one
-- before it. An empty stack has n = 0.
abbrev pub Fits : {A : Type 0} → ℕ → Stack A → Type 0
Fits n [] = n ≡ 0
Fits n ((o, p) ∷ []) = o ≡ n
Fits n ((o, p) ∷ (o2, p2) ∷ s) = (1 ≤ o) × (o < o2) × Fits n ((o2, p2) ∷ s)

-- A count of doublings that leaves an order of at least 1 below the one before.
abbrev pub Halves : (ℕ → ℕ) → Type 0
Halves count = (o : ℕ) → 2 ≤ o → (1 ≤ o - count o) × (o - count o < o)

pub theta_doublings-Halves : Halves theta_doublings
theta_doublings-Halves o h = (omega (arith, h), omega (arith, h))

small : (o : ℕ) → 2 ≤ o → ltb o 16 ≡ true → (1 ≤ o - (o - 1)) × (o - (o - 1) < o)
small o h e = (omega (arith, h), omega (arith, h))

pub curve_doublings-Halves : Halves curve_doublings
curve_doublings-Halves o h = elim (Bool-cases (ltb o 16)) [
  | inl e ↦ rw (curve_doublings, e) (small o h e)
  | inr e ↦ rw (curve_doublings, e) (theta_doublings-Halves o h)
]

not_one : (o : ℕ) → 1 ≤ o → (o == 1) ≡ false → 2 ≤ o
not_one o h g = ground arith

-- The inner loop ends with an order of 1 on the top, and the stack still fits.
pub descend-one :
    {A : Type 0}
    → (count : ℕ → ℕ) (double_by : ℕ → A → A) (fuel o n : ℕ) (p : A) (s : Stack A) → Halves count
    → o ≤ fuel
    → 1 ≤ o
    → Fits n ((o, p) ∷ s)
    → (top : ℕ) × (top ≡ 1)
      × (q : A) × (t : Stack A) × (descend count double_by fuel ((o, p) ∷ s) ≡ some ((top, q) ∷ t))
      × Fits n ((top, q) ∷ t)
unfolding descend
descend-one count double_by zero o n p s halves h g fits = absurd (omega (arith, h, g))
descend-one count double_by (suc fuel) o n p s halves h g fits = elim (Bool-cases (o == 1)) [
  | inl e ↦ (o, (==_iff o 1).0 e, p, s, rw (descend, e) refl, fits)
  | inr e ↦
      let (low, less) = halves o (not_one o g e) in
      let (top, is_one, q, t, found, rest) =
        descend-one count double_by fuel (o - count o) n (double_by (count o) p) ((o, p) ∷ s) halves
          (omega (arith, h, less)) low (low, less, fits) in
      (top, is_one, q, t, rw (descend, e) found, rest)
]

nonzero : (o : ℕ) → 2 ≤ o → (o == 0) ≡ false
nonzero o h = ground arith

-- Lowering the orders by 1 keeps a stack whose top is above 1 in order.
lowered-Fits :
    {A B : Type 0}
    → (f : A → B) (o n : ℕ) (p : A) (s : Stack A) → 2 ≤ o
    → Fits (suc n) ((o, p) ∷ s)
    → (t : Stack B) × (lowered f ((o, p) ∷ s) ≡ some ((o - 1, f p) ∷ t)) × Fits n ((o - 1, f p) ∷ t)
unfolding lowered
lowered-Fits f o n p [] h fits =
    let e : o - 1 ≡ n = omega (arith, fits) in let l = nonzero o h in ([], rw (lowered, l) refl, e)
lowered-Fits f o n p ((o2, p2) ∷ s) h (low, less, fits) =
    let (t, found, rest) = lowered-Fits f o2 n p2 s (omega (arith, h, less)) fits in
    let l = nonzero o h in
    (
      (o2 - 1, f p2) ∷ t,
      rw (lowered, l, found) refl,
      (omega (arith, h), omega (arith, h, less), rest),
    )

-- What is under a top of order 1 is lowered, and fits the order of the next round.
pub next-Fits :
    {A B : Type 0}
    → (f : A → B) (top n : ℕ) (p : A) (s : Stack A) → top ≡ 1
    → Fits (suc n) ((top, p) ∷ s)
    → (t : Stack B) × (lowered f s ≡ some t) × Fits n t
unfolding lowered
next-Fits f top n p [] e fits = ([], refl, omega (arith, e, fits))
next-Fits f top n p ((o2, p2) ∷ s) e (low, less, fits) =
    let (t, found, rest) = lowered-Fits f o2 n p2 s (omega (arith, e, less)) fits in
    ((o2 - 1, f p2) ∷ t, found, rest)

-- An order on the stack is at most the first one.
pub top-at_most : {A : Type 0} → (o n : ℕ) (p : A) (s : Stack A) → Fits n ((o, p) ∷ s) → o ≤ n
top-at_most o n p [] fits = omega (arith, fits)
top-at_most o n p ((o2, p2) ∷ s) (low, less, fits) = omega (arith, less, top-at_most o2 n p2 s fits)

-- The loop is done where nothing is left of the first order.
pub finished-zero : {A : Type 0} → (s : Stack A) → Fits 0 s → finished s ≡ true
finished-zero [] fits = refl
finished-zero ((o, p) ∷ []) fits = (==_iff o 0).1 fits
finished-zero ((o, p) ∷ (o2, p2) ∷ s) (low, less, fits) =
    absurd (omega (arith, less, top-at_most o2 0 p2 s fits))

pub unfinished :
    {A : Type 0}
    → (n o : ℕ) (p : A) (s : Stack A) → Fits (suc n) ((o, p) ∷ s)
    → (finished ((o, p) ∷ s) ≡ false) × (1 ≤ o)
unfinished n o p [] fits = (ground (arith, fits), omega (arith, fits))
unfinished n o p ((o2, p2) ∷ s) (low, less, fits) = (refl, low)

module _ (k : Field) where
  -- The kernel of a step with n steps behind it: the last one is `Ultimate`, the one before it
  -- `Penultimate`.
  abbrev pub variant : ℕ → JacobianPoint k → JacobianPoint k → EightTorsionStepKernel k
  variant zero t1 t2 = ultimate t1 t2
  variant (suc zero) t1 t2 = penultimate t1 t2
  variant (suc (suc n)) t1 t2 = interior t1 t2

  -- n steps of order 8 in a row, which lead from a surface with points to another one with their
  -- images.
  abbrev pub Walk :
      ℕ → Jacobian k → List (JacobianPoint k) → Jacobian k → List (JacobianPoint k) → Type 0
  Walk zero c pts d qs = (c ≡ d) × (pts ≡ qs)
  Walk (suc n) c pts d qs =
      (t1 : JacobianPoint k) × (t2 : JacobianPoint k) × (let iso =
          eight_isogeny k (variant n t1 t2) in
        Walk n iso.codomain (map (eval k iso) pts) d qs)
