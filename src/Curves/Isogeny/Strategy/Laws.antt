-- ===== src/Curves/Isogeny/Strategy/Laws.antt =====
-- The strategy of the chain of isogenies of degree 4 keeps its stack in order, so its rounds
-- answer, and the last isogeny has a kernel.
use sqisign_selkie.Prelude.{
  ◌≡◌, refl, ◌∙◌, ℕ, zero, suc, ◌+◌, ◌-◌, ◌*◌, ◌/◌, ◌%◌, ◌<◌, ◌≤◌, Bool, true, false, none, some,
  List, [], ◌∷◌, map, ◌==◌, ltb, arith, subst, Bool-cases, inl, inr, ==_iff, ◌⊎◌, ◌&&◌,
  if◌then◌else◌, ap, ap₂,
}
use sqisign_selkie.Fields.{Field}
use sqisign_selkie.Curves.Montgomery.{Curve}
use sqisign_selkie.Curves.Point.{ProjectiveXOnlyPoint}
use sqisign_selkie.Curves.Isogeny.{two_from_kernel, eval_two, four_from_kernel, eval_four}
use sqisign_selkie.Curves.Isogeny.Strategy.{
  Stack, repeated_double, doublings, descend, lowered, top_order, four_loop, last_round, isogeny,
}

-- The order that is pushed is even, at least 2 and below the order it comes from.
next_order :
    (o : ℕ) → 3 ≤ o → ((o - doublings o) % 2 ≡ 0) × (2 ≤ o - doublings o) × (o - doublings o < o)
next_order o h = (omega arith, omega arith, omega arith)

module _ (k : Field) where
  -- The orders of a stack: the first pushed is n, and every later one is even, at least 2 and below the
  -- one before it. An empty stack has n = 0.
  abbrev Fits : ℕ → Stack k → Type 0
  Fits n [] = n ≡ 0
  Fits n ((o, p) ∷ []) = o ≡ n
  Fits n ((o, p) ∷ (o2, p2) ∷ s) = (o % 2 ≡ 0) × (2 ≤ o) × (o < o2) × Fits n ((o2, p2) ∷ s)

  not_two : (o : ℕ) → 2 ≤ o → (o == 2) ≡ false → 3 ≤ o
  not_two o h g = ground arith

  -- The inner loop ends with an order of 2 on the top, and the stack still fits.
  descend-two :
      (fuel o n : ℕ) (p : ProjectiveXOnlyPoint k) (s : Stack k)
      → o ≤ fuel
      → 2 ≤ o
      → Fits n ((o, p) ∷ s)
      → (two : ℕ) × (two ≡ 2)
        × (q : ProjectiveXOnlyPoint k) × (t : Stack k) × (descend k fuel ((o, p) ∷ s)
            ≡ some ((two, q) ∷ t))
        × Fits n ((two, q) ∷ t)
  unfolding descend
  descend-two zero o n p s h g fits = absurd (omega arith)
  descend-two (suc fuel) o n p s h g fits = elim (Bool-cases (o == 2)) [
    | inl e ↦ (o, (==_iff o 2).0 e, p, s, rw (descend, e) refl, fits)
    | inr e ↦
        let (even, low, less) = next_order o (not_two o g e) in
        let (two, is_two, q, t, found, rest) =
          descend-two fuel (o - doublings o) n (repeated_double k (doublings o) p) ((o, p) ∷ s)
            (omega arith) low (even, low, less, fits) in
        (two, is_two, q, t, rw (descend, e) found, rest)
  ]

  large : (o : ℕ) → 3 ≤ o → ltb o 2 ≡ false
  large o h = ground arith

  even_less : (o : ℕ) → 3 ≤ o → o % 2 ≡ 0 → ((o - 2) % 2 ≡ 0) × (2 ≤ o - 2)
  even_less o h e = (omega arith, omega arith)

  -- Lowering the orders by 2 keeps a stack whose top is above 2 in order.
  lowered-Fits :
      (f : ProjectiveXOnlyPoint k → ProjectiveXOnlyPoint k) (o n : ℕ) (p : ProjectiveXOnlyPoint k)
      (s : Stack k)
      → 3 ≤ o
      → Fits (n + 2) ((o, p) ∷ s)
      → (t : Stack k) × (lowered k f ((o, p) ∷ s) ≡ some ((o - 2, f p) ∷ t))
        × Fits n ((o - 2, f p) ∷ t)
  unfolding lowered
  lowered-Fits f o n p [] h fits =
      let e : o - 2 ≡ n = omega arith in let l = large o h in ([], rw (lowered, l) refl, e)
  lowered-Fits f o n p ((o2, p2) ∷ s) h (even, low, less, fits) =
      let (t, found, rest) = lowered-Fits f o2 n p2 s (omega arith) fits in
      let (even', low') = even_less o h even in
      let l = large o h in
      ((o2 - 2, f p2) ∷ t, rw (lowered, l, found) refl, (even', low', omega arith, rest))

  -- What is under a top of order 2 is lowered, and fits the order of the next round.
  next-Fits :
      (f : ProjectiveXOnlyPoint k → ProjectiveXOnlyPoint k) (two n : ℕ) (p : ProjectiveXOnlyPoint k)
      (s : Stack k)
      → two ≡ 2
      → Fits (n + 2) ((two, p) ∷ s)
      → (t : Stack k) × (lowered k f s ≡ some t) × Fits n t
  unfolding lowered
  next-Fits f two n p [] e fits = ([], refl, omega arith)
  next-Fits f two n p ((o2, p2) ∷ s) e (even, low, less, fits) =
      let (t, found, rest) = lowered-Fits f o2 n p2 s (omega arith) fits in
      ((o2 - 2, f p2) ∷ t, found, rest)

  top_low : (n : ℕ) (s : Stack k) → Fits (n + 2) s → 2 ≤ top_order k s
  top_low n [] fits = absurd (omega arith)
  top_low n ((o, p) ∷ []) fits = omega arith
  top_low n ((o, p) ∷ (o2, p2) ∷ s) (even, low, less, fits) = low

  four_loop-step :
      (rest : ℕ) (curve : Curve k) (o : ℕ) (p : ProjectiveXOnlyPoint k) (s : Stack k)
      → (pts : List (ProjectiveXOnlyPoint k)) (two : ℕ) (q : ProjectiveXOnlyPoint k) (t u : Stack k)
      → descend k o ((o, p) ∷ s) ≡ some ((two, q) ∷ t)
      → lowered k (eval_four k (four_from_kernel k q)) t ≡ some u
      → let phi = four_from_kernel k q in
        four_loop k (suc rest) curve ((o, p) ∷ s) pts
        ≡ four_loop k rest phi.codomain u (map (eval_four k phi) pts)
  unfolding four_loop
  four_loop-step rest curve o p s pts two q t u h g = rw (four_loop, h, g) refl

  isogeny-step :
      (debug : Bool) (p : ProjectiveXOnlyPoint k) (e : ℕ) (pts : List (ProjectiveXOnlyPoint k))
      → (c : Curve k) (s : Stack k) (qs : List (ProjectiveXOnlyPoint k))
      → four_loop k (e / 2) p.curve ((e, p) ∷ []) pts ≡ some (c, s, qs)
      → isogeny k debug p e pts ≡ last_round k debug (e % 2 == 1) c s qs
  unfolding isogeny
  isogeny-step debug p e pts c s qs h = rw (isogeny, h) refl

  -- A stack that fits an order of 1 is one kernel of that order.
  Fits-one :
      (n : ℕ) (s : Stack k)
      → n ≡ 1
      → Fits n s
      → (o : ℕ) × (q : ProjectiveXOnlyPoint k) × (s ≡ (o, q) ∷ []) × (o ≡ 1)
  Fits-one n [] e fits = absurd (omega arith)
  Fits-one n ((o, q) ∷ []) e fits = (o, q, refl, omega arith)
  Fits-one n ((o, q) ∷ (o2, q2) ∷ s) e (even, low, less, fits) =
      absurd (not_below n (o2, q2) s o e low less fits)
    where
      not_below :
          (n : ℕ) (t : ℕ × ProjectiveXOnlyPoint k) (s : Stack k) (o : ℕ)
          → n ≡ 1
          → 2 ≤ o
          → o < t.0
          → Fits n (t ∷ s)
          → ⊥
      not_below n t [] o e low less fits = omega arith
      not_below n t (u ∷ s) o e low less (even, low', less', fits) =
          not_below n u s t.0 e low' less' fits

  -- With two of the order for each round that is left, the rounds answer, and the rest of the order is
  -- left at the bottom of the stack.
  four_loop_total :
      (rest n : ℕ) (curve : Curve k) (s : Stack k) (pts : List (ProjectiveXOnlyPoint k))
      → Fits (rest * 2 + n) s
      → (c : Curve k) × (t : Stack k) × (qs : List (ProjectiveXOnlyPoint k)) × (four_loop k rest
            curve s pts
          ≡ some (c, t, qs))
        × Fits n t
  unfolding four_loop
  four_loop_total zero n curve s pts fits =
      let e : 0 * 2 + n ≡ n = omega arith in (curve, s, pts, refl, subst (λ m. Fits m s) e fits)
  four_loop_total (suc rest) n curve [] pts fits = absurd (omega arith)
  four_loop_total (suc rest) n curve ((o, p) ∷ s) pts fits =
      let m = rest * 2 + n in
      let e : suc rest * 2 + n ≡ m + 2 = omega arith in
      let fits' = subst (λ j. Fits j ((o, p) ∷ s)) e fits in
      let (two, is_two, q, t, found, below) =
        descend-two o o (m + 2) p s (omega arith) (top_low m ((o, p) ∷ s) fits') fits' in
      let phi = four_from_kernel k q in
      let (u, lower, next) = next-Fits (eval_four k phi) two m q t is_two below in
      let (c, v, qs, answer, last) =
        four_loop_total rest n phi.codomain u (map (eval_four k phi) pts) next in
      (c, v, qs, four_loop-step rest curve o p s pts two q t u found lower ∙ answer, last)

  last_round-one :
      (debug : Bool) (c : Curve k) (o : ℕ) (q : ProjectiveXOnlyPoint k)
      → (qs : List (ProjectiveXOnlyPoint k))
      → let phi = two_from_kernel k q in
        last_round k debug true c ((o, q) ∷ []) qs ≡ (
          if debug && k.ct_eq q.x k.ring.zero
          then none
          else some (phi.codomain, map (eval_two k phi) qs))
  unfolding last_round
  last_round-one debug c o q qs = refl

  last_round-even :
      (debug : Bool) (c : Curve k) (s : Stack k) (qs : List (ProjectiveXOnlyPoint k))
      → last_round k debug false c s qs ≡ some (c, qs)
  unfolding last_round
  last_round-even debug c s qs = refl

  -- The rounds of degree 4 answer for every generator, exponent and list of points: no index is out of
  -- range, no order goes below zero and the inner loop ends. With an even exponent their answer is that
  -- of the chain. With an odd one they leave one kernel, of order 1 in the exponent; in a build with
  -- debug assertions the chain panics where the first coordinate of that kernel is zero, and in all
  -- other cases it answers with the isogeny of degree 2 from it behind the rounds.
  pub isogeny_total :
      (debug : Bool) (p : ProjectiveXOnlyPoint k) (e : ℕ) (pts : List (ProjectiveXOnlyPoint k))
      → (c : Curve k) × (s : Stack k) × (qs : List (ProjectiveXOnlyPoint k)) × (four_loop k
            (e / 2)
            p.curve
            ((e, p) ∷ [])
            pts
          ≡ some (c, s, qs))
        × (((e % 2 ≡ 0) × (isogeny k debug p e pts ≡ some (c, qs)))
            ⊎ ((e % 2 ≡ 1)
                × (o : ℕ) × (q : ProjectiveXOnlyPoint k) × (s ≡ (o, q) ∷ [])
                × (o ≡ 1)
                × (let phi = two_from_kernel k q in
                    isogeny k debug p e pts ≡ (
                      if debug && k.ct_eq q.x k.ring.zero
                      then none
                      else some (phi.codomain, map (eval_two k phi) qs)))))
  isogeny_total debug p e pts =
      let split : e ≡ (e / 2) * 2 + e % 2 = omega arith in
      let (c, s, qs, answer, last) =
        four_loop_total (e / 2) (e % 2) p.curve ((e, p) ∷ []) pts split in
      let chain = isogeny-step debug p e pts c s qs answer in
      (
        c,
        s,
        qs,
        answer,
        elim (Bool-cases (e % 2 == 1)) [
          | inl odd ↦
              let one = (==_iff (e % 2) 1).0 odd in
              let (o, q, single, order) = Fits-one (e % 2) s one last in
              inr (
                one,
                o,
                q,
                single,
                order,
                chain
                    ∙ ap₂ (λ b t. last_round k debug b c t qs) odd single
                    ∙ last_round-one debug c o q qs,
              )
          | inr even ↦ inl (
            not_odd e even,
            chain ∙ ap (λ b. last_round k debug b c s qs) even ∙ last_round-even debug c s qs,
          )
        ],
      )
    where
      not_odd : (e : ℕ) → (e % 2 == 1) ≡ false → e % 2 ≡ 0
      not_odd e h = ground arith
