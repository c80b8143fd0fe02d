-- ===== src/Tests/Chains.antt =====
-- The chains of isogenies from a point of order four on the curve y² = x³ + x over the field with three
-- elements.
use sqisign_selkie.Prelude.{
  ◌≡◌, ◌⊎◌, ℕ, ◌%◌, ◌/◌, ◌&&◌, true, if◌then◌else◌, none, some, List, [], ◌∷◌, map,
}
use sqisign_selkie.Curves.Montgomery.{Curve}
use sqisign_selkie.Curves.Point.{ProjectiveXOnlyPoint}
use sqisign_selkie.Curves.Isogeny.{two_from_kernel, eval_two}
use sqisign_selkie.Curves.Isogeny.Strategy.{Stack, four_loop, isogeny}
use sqisign_selkie.Curves.Isogeny.Strategy.Laws.{isogeny_total}
use sqisign_selkie.Tests.Field3.{f0}
use sqisign_selkie.Tests.Instances.{field3}
use sqisign_selkie.Tests.Curves.{e3, point3, other3}

abbrev points3 : List (ProjectiveXOnlyPoint field3)
points3 = other3 ∷ []

isogeny_total_example :
    (c : Curve field3) × (s : Stack field3) × (qs : List (ProjectiveXOnlyPoint field3)) × (four_loop
        field3
        (7 / 2)
        e3
        ((7, point3) ∷ [])
        points3
      ≡ some (c, s, qs))
    × (((7 % 2 ≡ 0) × (isogeny field3 true point3 7 points3 ≡ some (c, qs)))
        ⊎ ((7 % 2 ≡ 1)
            × (o : ℕ) × (q : ProjectiveXOnlyPoint field3) × (s ≡ (o, q) ∷ [])
            × (o ≡ 1)
            × (let phi = two_from_kernel field3 q in
                isogeny field3 true point3 7 points3 ≡ (
                  if true && field3.ct_eq q.x f0
                  then none
                  else some (phi.codomain, map (eval_two field3 phi) qs)))))
isogeny_total_example = isogeny_total field3 true point3 7 points3
