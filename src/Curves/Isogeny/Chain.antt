-- ===== src/Curves/Isogeny/Chain.antt =====
-- Chains of isogenies of degree 2, after `Kernel::isogeny_small` of src/curves/isogeny/mod.rs. The
-- kernel is its generator, and the one error that the function has is `none`.
pub mod Laws
use sqisign_selkie.Prelude.{
  ℕ, zero, suc, Bool, true, false, not, ◌&&◌, Option, none, some, List, map,
}
use sqisign_selkie.Fields.{Field}
use sqisign_selkie.Curves.Montgomery.{Curve}
use sqisign_selkie.Curves.Point.{ProjectiveXOnlyPoint, double, is_identity}
use sqisign_selkie.Curves.Isogeny.{two_from_kernel, eval_two, singular_from_curve, eval_singular}

module _ (k : Field) (sqrt : k.ring.Carrier → k.ring.Carrier) where
  unfoldable pub doubled : ℕ → ProjectiveXOnlyPoint k → ProjectiveXOnlyPoint k
  doubled zero p = p
  doubled (suc n) p = doubled n (double k p)

  -- One round: the codomain and the map of the isogeny whose kernel is the point of order two.
  unfoldable pub small_step :
      Bool
      → Curve k
      → ProjectiveXOnlyPoint k
      → Curve k × (ProjectiveXOnlyPoint k → ProjectiveXOnlyPoint k)
  small_step true curve kernel =
      let phi = singular_from_curve k sqrt curve in (phi.codomain, eval_singular k phi)
  small_step false curve kernel =
      let phi = two_from_kernel k kernel in (phi.codomain, eval_two k phi)

  -- The rounds that are left, with the mark of the first round.
  unfoldable pub small_loop :
      ℕ
      → Bool
      → Curve k
      → ProjectiveXOnlyPoint k
      → List (ProjectiveXOnlyPoint k)
      → Option (Curve k × List (ProjectiveXOnlyPoint k))
  small_loop zero is_first curve p pts = some (curve, pts)
  small_loop (suc rest) is_first curve p pts =
      let kernel = doubled rest p in
      let step = small_step (k.ct_eq kernel.x k.ring.zero) curve kernel in
      elim (is_first && not (is_identity k (double k kernel))) [
        | true ↦ none
        | false ↦ small_loop rest false step.0 (step.1 p) (map step.1 pts)
      ]

  unfoldable pub isogeny_small :
      ProjectiveXOnlyPoint k
      → ℕ
      → List (ProjectiveXOnlyPoint k)
      → Option (Curve k × List (ProjectiveXOnlyPoint k))
  isogeny_small generator e pts = small_loop e true generator.curve generator pts
