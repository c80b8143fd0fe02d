-- ===== src/Surfaces/Chain/Tail/Total.antt =====
-- The chain with the two steps at its end never panics, its loops end, and its last round leaves the
-- kernel of the step of order 4.
use sqisign_selkie.Prelude.{
  ◌≡◌, refl, ap, ◌∙◌, ℕ, zero, suc, ◌-◌, ◌<◌, ◌≤◌, ◌⊎◌, false, none, some, Option, List, [], ◌∷◌,
  map, ltb, arith, inl, inr,
}
use sqisign_selkie.Fields.{Field}
use sqisign_selkie.Surfaces.{Jacobian, JacobianPoint}
use sqisign_selkie.Surfaces.Step.{interior, StepIsogeny, eight_isogeny, eval}
use sqisign_selkie.Surfaces.Gluing.{ProductPoint, gluing_isogeny, eval_special}
use sqisign_selkie.Surfaces.Chain.{
  curve_doublings, theta_doublings, Stack, top_order, descend, lowered, finished, CurvePair,
  ThetaPair, Kernel, double_curve_pair, double_theta_pair, eval_pair, gluing_of, eval_gluing_pair,
}
use sqisign_selkie.Surfaces.Chain.Laws.{
  Fits, descend-one, next-Fits, top-at_most, finished-zero, unfinished, curve_doublings-Halves,
  theta_doublings-Halves,
}
use sqisign_selkie.Surfaces.Chain.Tail.{
  Stash, stashed, interior_loop, glue_and_walk_interior, tail_steps, isogeny_inner_no_extra_torsion,
}

-- Where the first order is 1 and the top is, nothing is below the top.
alone : {A : Type 0} → (top : ℕ) (q : A) (t : Stack A) → top ≡ 1 → Fits 1 ((top, q) ∷ t) → t ≡ []
alone top q [] e fits = refl
alone top q ((o2, p2) ∷ t) e (low, less, fits) =
    absurd (omega (arith, e, less, top-at_most o2 1 p2 t fits))

module _ (k : Field) where
  interior_loop-step :
      (fuel : ℕ) (stash : Stash k) (current : Jacobian k) (s : Stack (ThetaPair k))
      (pts : List (JacobianPoint k)) (top : ℕ) (q : ThetaPair k) (t u : Stack (ThetaPair k))
      → finished s ≡ false
      → descend theta_doublings (double_theta_pair k) (top_order s) s ≡ some ((top, q) ∷ t)
      → lowered (eval_pair k (eight_isogeny k (interior q.0 q.1))) t ≡ some u
      → let iso = eight_isogeny k (interior q.0 q.1) in
        interior_loop k (suc fuel) stash current s pts
        ≡ interior_loop k fuel (stashed k stash iso q t) iso.codomain u (map (eval k iso) pts)
  unfolding interior_loop
  interior_loop-step fuel stash current s pts top q t u more found lower =
      rw (interior_loop, more, found, lower) refl

  glue_and_walk_interior-step :
      (kernel : Kernel k) (e : ℕ) (pts : List (ProductPoint k)) (top : ℕ) (q : CurvePair k)
      (t : Stack (CurvePair k)) (u : Stack (ThetaPair k))
      → descend curve_doublings (double_curve_pair k) e ((e, (kernel.p, kernel.q)) ∷ [])
        ≡ some ((top, q) ∷ t)
      → let glued = (gluing_isogeny k (gluing_of k q) []).0 in
        lowered (eval_gluing_pair k kernel q glued) t ≡ some u
        → let glued = (gluing_isogeny k (gluing_of k q) []).0 in
          glue_and_walk_interior k kernel e pts
          ≡ interior_loop k e none glued.codomain u (map (λ p. eval_special k p glued) pts)
  unfolding glue_and_walk_interior
  glue_and_walk_interior-step kernel e pts top q t u found lower =
      rw (glue_and_walk_interior, found, lower) refl

  -- The loop over at least one step ends with a stash.
  interior_loop_total :
      (n : ℕ) (stash : Stash k) (current : Jacobian k) (s : Stack (ThetaPair k))
      (pts : List (JacobianPoint k))
      → Fits (suc n) s
      → (last : StepIsogeny k × ThetaPair k) × (c : Jacobian k) × (qs : List (JacobianPoint k))
        × (interior_loop k (suc (suc n)) stash current s pts ≡ some (some last, c, qs))
  unfolding interior_loop
  interior_loop_total n stash current [] pts fits = absurd (omega (arith, fits))
  interior_loop_total zero stash current ((o, p) ∷ s) pts fits =
      let (more, low) = unfinished 0 o p s fits in
      let (top, is_one, q, t, found, below) =
        descend-one theta_doublings (double_theta_pair k) o o 1 p s theta_doublings-Halves
          (omega arith) low fits in
      let iso = eight_isogeny k (interior q.0 q.1) in
      let (u, lower, next) = next-Fits (eval_pair k iso) top 0 q t is_one below in
      let images = map (eval k iso) pts in
      let last : stashed k stash iso q t ≡ some (iso, q) =
        ap (stashed k stash iso q) (alone top q t is_one below) in
      (
        (iso, q),
        iso.codomain,
        images,
        interior_loop-step 1 stash current ((o, p) ∷ s) pts top q t u more found lower
            ∙ ap (λ m. interior_loop k 1 m iso.codomain u images) last
            ∙ rw (interior_loop, finished-zero u next) refl,
      )
  interior_loop_total (suc n) stash current ((o, p) ∷ s) pts fits =
      let (more, low) = unfinished (suc n) o p s fits in
      let (top, is_one, q, t, found, below) =
        descend-one theta_doublings (double_theta_pair k) o o (suc (suc n)) p s
          theta_doublings-Halves (omega arith) low fits in
      let iso = eight_isogeny k (interior q.0 q.1) in
      let (u, lower, next) = next-Fits (eval_pair k iso) top (suc n) q t is_one below in
      let (last, c, qs, answer) =
        interior_loop_total n (stashed k stash iso q t) iso.codomain u (map (eval k iso) pts)
          next in
      (
        last,
        c,
        qs,
        interior_loop-step (suc (suc n)) stash current ((o, p) ∷ s) pts top q t u more found lower
            ∙ answer,
      )

  glue_and_walk_interior_total :
      (kernel : Kernel k) (n : ℕ) (pts : List (ProductPoint k))
      → (last : StepIsogeny k × ThetaPair k) × (c : Jacobian k) × (qs : List (JacobianPoint k))
        × (glue_and_walk_interior k kernel (suc (suc n)) pts ≡ some (some last, c, qs))
  glue_and_walk_interior_total kernel n pts =
      let e = suc (suc n) in
      let start : CurvePair k = (kernel.p, kernel.q) in
      let (top, is_one, q, t, found, below) =
        descend-one curve_doublings (double_curve_pair k) e e e start [] curve_doublings-Halves
          (omega arith) (omega arith) refl in
      let glued = (gluing_isogeny k (gluing_of k q) []).0 in
      let (u, lower, next) =
        next-Fits (eval_gluing_pair k kernel q glued) top (suc n) q t is_one below in
      let (last, c, qs, answer) =
        interior_loop_total n none glued.codomain u (map (λ p. eval_special k p glued) pts) next in
      (last, c, qs, glue_and_walk_interior-step kernel e pts top q t u found lower ∙ answer)

  -- In a build without debug assertions the chain without extra torsion never panics and its loops end.
  -- With an exponent below 4 it answers `None`; with any other one the last round of its main loop leaves
  -- a step and a kernel, so its answer is that of the splitting behind the steps of order 4 and 2.
  pub isogeny_inner_no_extra_torsion_total :
      (sqrt : k.ring.Carrier → k.ring.Carrier) (i : k.ring.Carrier) (kernel : Kernel k) (e : ℕ)
      (pts : List (ProductPoint k)) (randomize : Option (List ℕ))
      → ((e < 4) × (isogeny_inner_no_extra_torsion k sqrt i kernel e pts randomize ≡ some none))
        ⊎ ((4 ≤ e)
            × (last : StepIsogeny k × ThetaPair k) × (c : Jacobian k) × (qs : List
                (JacobianPoint k))
            × (glue_and_walk_interior k kernel (e - 2) pts ≡ some (some last, c, qs))
            × (isogeny_inner_no_extra_torsion k sqrt i kernel e pts randomize
                ≡ some (tail_steps k sqrt i (some last) c qs randomize)))
  unfolding isogeny_inner_no_extra_torsion
  isogeny_inner_no_extra_torsion_total sqrt i kernel zero pts randomize = inl (omega arith, refl)
  isogeny_inner_no_extra_torsion_total sqrt i kernel (suc zero) pts randomize =
      inl (omega arith, refl)
  isogeny_inner_no_extra_torsion_total sqrt i kernel (suc (suc zero)) pts randomize =
      inl (omega arith, refl)
  isogeny_inner_no_extra_torsion_total sqrt i kernel (suc (suc (suc zero))) pts randomize =
      inl (omega arith, refl)
  isogeny_inner_no_extra_torsion_total sqrt i kernel (suc (suc (suc (suc n)))) pts randomize =
      let e = suc (suc (suc (suc n))) in
      let (last, c, qs, answer) = glue_and_walk_interior_total kernel n pts in
      let large : ltb e 4 ≡ false = ground arith in
      let less : e - 2 ≡ suc (suc n) = omega arith in
      let found = ap (λ m. glue_and_walk_interior k kernel m pts) less ∙ answer in
      inr (omega arith, last, c, qs, found, rw (isogeny_inner_no_extra_torsion, large, found) refl)
