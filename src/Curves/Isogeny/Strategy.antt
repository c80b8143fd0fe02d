-- ===== src/Curves/Isogeny/Strategy.antt =====
-- The chain of isogenies of degree 4 of `Kernel::isogeny` in src/curves/isogeny/mod.rs. The two
-- vectors `strat_pts` and `orders` are one stack of pairs, the last index first. `none` stands for a
-- panic: an index out of range, an order below zero, or the assertion on the last kernel, which only
-- builds with `debug_assertions` make.
pub mod Laws
use sqisign_selkie.Prelude.{
  ℕ, zero, suc, ◌+◌, ◌-◌, ◌*◌, ◌/◌, ◌%◌, Bool, true, false, Option, none, some, List, [], ◌∷◌, map,
  ◌==◌, ltb, ◌&&◌, if◌then◌else◌,
}
use sqisign_selkie.Fields.{Field}
use sqisign_selkie.Curves.Montgomery.{Curve}
use sqisign_selkie.Curves.Point.{ProjectiveXOnlyPoint, double}
use sqisign_selkie.Curves.Isogeny.{two_from_kernel, eval_two, four_from_kernel, eval_four}

-- The number of doublings from an order to the next one.
abbrev pub doublings : ℕ → ℕ
doublings o = (o / 4) * 2 + o % 2

module _ (k : Field) where
  abbrev pub Stack : Type 0
  Stack = List (ℕ × ProjectiveXOnlyPoint k)

  unfoldable pub repeated_double : ℕ → ProjectiveXOnlyPoint k → ProjectiveXOnlyPoint k
  repeated_double zero p = p
  repeated_double (suc n) p = repeated_double n (double k p)

  -- The inner loop: points are pushed until the order is 2.
  unfoldable pub descend : ℕ → Stack → Option Stack
  descend zero s = none
  descend (suc fuel) [] = none
  descend (suc fuel) ((o, p) ∷ s) = elim (o == 2) [
    | true ↦ some ((o, p) ∷ s)
    | false ↦ descend fuel ((o - doublings o, repeated_double (doublings o) p) ∷ (o, p) ∷ s)
  ]

  -- The images of the points that are left, whose orders go down by 2.
  unfoldable pub lowered : (ProjectiveXOnlyPoint k → ProjectiveXOnlyPoint k) → Stack → Option Stack
  lowered f [] = some []
  lowered f ((o, p) ∷ s) = elim (ltb o 2) [
    | true ↦ none
    | false ↦ elim (lowered f s) [ none ↦ none | some t ↦ some ((o - 2, f p) ∷ t) ]
  ]

  abbrev pub top_order : Stack → ℕ
  top_order [] = 0
  top_order ((o, p) ∷ s) = o

  abbrev pub Chain : Type 0
  Chain = Curve k × Stack × List (ProjectiveXOnlyPoint k)

  -- The rounds that are left.
  unfoldable pub four_loop : ℕ → Curve k → Stack → List (ProjectiveXOnlyPoint k) → Option Chain
  four_loop zero curve s pts = some (curve, s, pts)
  four_loop (suc rest) curve s pts = elim (descend (top_order s) s) [
    | none ↦ none
    | some [] ↦ none
    | some ((o, p) ∷ t) ↦
        let phi = four_from_kernel k p in
        elim (lowered (eval_four k phi) t) [
          | none ↦ none
          | some u ↦ four_loop rest phi.codomain u (map (eval_four k phi) pts)
        ]
  ]

  -- The first point of the vector, which is the last of the stack.
  unfoldable pub last_round :
      Bool
      → Bool
      → Curve k
      → Stack
      → List (ProjectiveXOnlyPoint k)
      → Option (Curve k × List (ProjectiveXOnlyPoint k))
  last_round debug_assertions false curve s pts = some (curve, pts)
  last_round debug_assertions true curve [] pts = some (curve, pts)
  last_round debug_assertions true curve ((o, p) ∷ []) pts =
      if debug_assertions && k.ct_eq p.x k.ring.zero
      then none
      else let phi = two_from_kernel k p in some (phi.codomain, map (eval_two k phi) pts)
  last_round debug_assertions true curve ((o, p) ∷ t ∷ s) pts =
      last_round debug_assertions true curve (t ∷ s) pts

  unfoldable pub isogeny :
      Bool
      → ProjectiveXOnlyPoint k
      → ℕ
      → List (ProjectiveXOnlyPoint k)
      → Option (Curve k × List (ProjectiveXOnlyPoint k))
  isogeny debug_assertions generator e pts =
      elim (four_loop (e / 2) generator.curve ((e, generator) ∷ []) pts) [
        | none ↦ none
        | some (curve, s, images) ↦ last_round debug_assertions (e % 2 == 1) curve s images
      ]
