-- ===== src/Surfaces/Chain/Tail.antt =====
-- The chain of `Kernel::isogeny_inner_no_extra_torsion` in src/surfaces/mod.rs, which ends with a step
-- of order 4 and one of order 2, and the three entries of `Kernel`. The assertions that debug builds
-- make of the kernel are left out.
pub mod Total
use sqisign_selkie.Prelude.{
  ℕ, zero, suc, ◌-◌, true, false, Option, none, some, List, [], ◌∷◌, map, ltb,
}
use sqisign_selkie.Fields.{Field}
use sqisign_selkie.Surfaces.{Jacobian, JacobianPoint}
use sqisign_selkie.Surfaces.Step.{
  interior, StepIsogeny, eight_isogeny, four_isogeny, two_isogeny, eval,
}
use sqisign_selkie.Surfaces.Gluing.{ProductPoint, gluing_isogeny, eval_special}
use sqisign_selkie.Surfaces.Splitting.{EllipticProduct, splitting_isogeny}
use sqisign_selkie.Surfaces.Chain.{
  curve_doublings, theta_doublings, Stack, top_order, descend, lowered, finished, ThetaPair, Kernel,
  double_curve_pair, double_theta_pair, eval_pair, gluing_of, eval_gluing_pair, isogeny_inner,
}

module _ (k : Field) where
  open k.ring use {Carrier}

  -- `last_step` and `last_kernel`, which are set together.
  abbrev pub Stash : Type 0
  Stash = Option (StepIsogeny k × ThetaPair k)

  -- The stash of a round, from the points below the kernel.
  abbrev pub stashed : Stash → StepIsogeny k → ThetaPair k → Stack (ThetaPair k) → Stash
  stashed stash iso t [] = some (iso, t)
  stashed stash iso t (p ∷ rest) = stash

  unfoldable pub interior_loop :
      ℕ
      → Stash
      → Jacobian k
      → Stack (ThetaPair k)
      → List (JacobianPoint k)
      → Option (Stash × Jacobian k × List (JacobianPoint k))
  interior_loop zero stash current s pts = none
  interior_loop (suc fuel) stash current s pts = elim (finished s) [
    | true ↦ some (stash, current, pts)
    | false ↦ elim (descend theta_doublings (double_theta_pair k) (top_order s) s) [
      | none ↦ none
      | some [] ↦ none
      | some ((o, t) ∷ rest) ↦
          let iso = eight_isogeny k (interior t.0 t.1) in
          elim (lowered (eval_pair k iso) rest) [
            | none ↦ none
            | some next ↦
                interior_loop fuel (stashed stash iso t rest) iso.codomain next
                  (map (eval k iso) pts)
          ]
    ]
  ]

  unfoldable pub glue_and_walk_interior :
      Kernel k → ℕ → List (ProductPoint k) → Option (Stash × Jacobian k × List (JacobianPoint k))
  glue_and_walk_interior kernel order pts =
      elim (descend curve_doublings (double_curve_pair k) order
        ((order, (kernel.p, kernel.q)) ∷ [])) [
          | none ↦ none
          | some [] ↦ none
          | some ((o, top) ∷ rest) ↦
              let (glued, images) = gluing_isogeny k (gluing_of k top) [] in
              let theta_pts = map (λ p. eval_special k p glued) pts in
              elim (lowered (eval_gluing_pair k kernel top glued) rest) [
                | none ↦ none
                | some theta_strat ↦ interior_loop order none glued.codomain theta_strat theta_pts
              ]
        ]

  -- The steps of order 4 and 2, and the splitting.
  unfoldable pub tail_steps :
      (Carrier → Carrier)
      → Carrier
      → Stash
      → Jacobian k
      → List (JacobianPoint k)
      → Option (List ℕ)
      → Option (EllipticProduct k × List (ProductPoint k))
  tail_steps sqrt i none current theta_pts randomize = none
  tail_steps sqrt i (some (last_iso, kernel)) current theta_pts randomize =
      let kp1 = eval k last_iso kernel.0 in
      let iso_4 = four_isogeny k sqrt kp1 current in
      let theta_pts = map (eval k iso_4) theta_pts in
      let iso_2 = two_isogeny k sqrt iso_4.codomain in
      let theta_pts = map (eval k iso_2) theta_pts in
      splitting_isogeny k i iso_2.codomain theta_pts randomize

  unfoldable pub isogeny_inner_no_extra_torsion :
      (Carrier → Carrier)
      → Carrier
      → Kernel k
      → ℕ
      → List (ProductPoint k)
      → Option (List ℕ)
      → Option (Option (EllipticProduct k × List (ProductPoint k)))
  isogeny_inner_no_extra_torsion sqrt i kernel e pts randomize = elim (ltb e 4) [
    | true ↦ some none
    | false ↦ elim (glue_and_walk_interior kernel (e - 2) pts) [
      | none ↦ none
      | some (stash, current, theta_pts) ↦
          some (tail_steps sqrt i stash current theta_pts randomize)
    ]
  ]

  unfoldable pub isogeny :
      Carrier
      → Kernel k
      → ℕ
      → List (ProductPoint k)
      → Option (List ℕ)
      → Option (Option (EllipticProduct k × List (ProductPoint k)))
  isogeny i kernel e pts randomize = isogeny_inner k i kernel e pts randomize

  unfoldable pub isogeny_extra_torsion :
      Carrier
      → Kernel k
      → ℕ
      → List (ProductPoint k)
      → Option (Option (EllipticProduct k × List (ProductPoint k)))
  isogeny_extra_torsion i kernel e pts = isogeny_inner k i kernel e pts none

  unfoldable pub isogeny_no_extra_torsion :
      (Carrier → Carrier)
      → Carrier
      → Kernel k
      → ℕ
      → List (ProductPoint k)
      → Option (List ℕ)
      → Option (Option (EllipticProduct k × List (ProductPoint k)))
  isogeny_no_extra_torsion sqrt i kernel e pts randomize =
      isogeny_inner_no_extra_torsion sqrt i kernel e pts randomize
