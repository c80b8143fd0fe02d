-- ===== src/Curves/Isogeny/Chain/Laws.antt =====
-- When the chain of isogenies of degree 2 answers, and where its points lie.
use sqisign_selkie.Prelude.{
  ◌≡◌, refl, ap, ◌∙◌, ℕ, zero, suc, Bool, true, false, not, Option, none, some, List, [], ◌∷◌, map,
  length,
}
use sqisign_selkie.Fields.{Field}
use sqisign_selkie.Curves.Montgomery.{Curve}
use sqisign_selkie.Curves.Point.{ProjectiveXOnlyPoint, double, is_identity, from_xz}
use sqisign_selkie.Curves.Isogeny.{eval_two, eval_singular}
use sqisign_selkie.Curves.Isogeny.Chain.{doubled, small_step, small_loop, isogeny_small}

module _ (k : Field) (sqrt : k.ring.Carrier → k.ring.Carrier) where
  -- Every point of a list is on the curve.
  abbrev pub AllOn : Curve k → List (ProjectiveXOnlyPoint k) → Type 0
  AllOn e [] = Unit
  AllOn e (p ∷ pts) = (p.curve ≡ e) × AllOn e pts

  double-doubled :
      (n : ℕ) (p : ProjectiveXOnlyPoint k)
      → double k (doubled k sqrt n p) ≡ doubled k sqrt (suc n) p
  unfolding doubled
  double-doubled zero p = refl
  double-doubled (suc n) p = double-doubled n (double k p)

  step-curve :
      (singular : Bool) (e : Curve k) (kernel q : ProjectiveXOnlyPoint k)
      → ((small_step k sqrt singular e kernel).1 q).curve ≡ (small_step k sqrt singular e kernel).0
  unfolding small_step eval_two eval_singular from_xz
  step-curve true e kernel q = refl
  step-curve false e kernel q = refl

  map-AllOn :
      (e : Curve k) (f : ProjectiveXOnlyPoint k → ProjectiveXOnlyPoint k)
      (pts : List (ProjectiveXOnlyPoint k))
      → ((q : ProjectiveXOnlyPoint k) → (f q).curve ≡ e)
      → AllOn e (map f pts)
  map-AllOn e f [] h = tt
  map-AllOn e f (p ∷ pts) h = (h p, map-AllOn e f pts h)

  length-map :
      (f : ProjectiveXOnlyPoint k → ProjectiveXOnlyPoint k) (pts : List (ProjectiveXOnlyPoint k))
      → length (map f pts) ≡ length pts
  length-map f [] = refl
  length-map f (p ∷ pts) = ap suc (length-map f pts)

  -- After the first round nothing fails, and the points stay together with the curve.
  later_rounds :
      (n : ℕ) (e : Curve k) (p : ProjectiveXOnlyPoint k) (pts : List (ProjectiveXOnlyPoint k))
      → AllOn e pts
      → (c : Curve k) × (qs : List (ProjectiveXOnlyPoint k)) × (small_loop k sqrt n false e p pts
          ≡ some (c, qs))
        × AllOn c qs
        × (length qs ≡ length pts)
  unfolding small_loop
  later_rounds zero e p pts h = (e, pts, refl, h, refl)
  later_rounds (suc n) e p pts h =
      let kernel = doubled k sqrt n p in
      let singular = k.ct_eq kernel.x k.ring.zero in
      let step = small_step k sqrt singular e kernel in
      let (c, qs, found, on, count) =
        later_rounds n step.0 (step.1 p) (map step.1 pts)
          (map-AllOn step.0 step.1 pts (step-curve singular e kernel)) in
      (c, qs, found, on, count ∙ length-map step.1 pts)

  -- A curve and as many points as were given, all on that curve.
  abbrev pub Answers :
      Option (Curve k × List (ProjectiveXOnlyPoint k)) → List (ProjectiveXOnlyPoint k) → Type 0
  Answers r pts =
      (c : Curve k) × (qs : List (ProjectiveXOnlyPoint k)) × (r ≡ some (c, qs))
      × AllOn c qs
      × (length qs ≡ length pts)

  -- The chain of a generator whose double repeated e times is the identity answers a curve and as many
  -- points as were given, all on that curve, where the points given are on the curve of the generator.
  pub isogeny_small-Answers :
      (p : ProjectiveXOnlyPoint k) (e : ℕ) (pts : List (ProjectiveXOnlyPoint k))
      → is_identity k (doubled k sqrt e p) ≡ true
      → AllOn p.curve pts
      → Answers (isogeny_small k sqrt p e pts) pts
  unfolding isogeny_small small_loop
  isogeny_small-Answers p zero pts order h = (p.curve, pts, refl, h, refl)
  isogeny_small-Answers p (suc n) pts order h =
      let kernel = doubled k sqrt n p in
      let singular = k.ct_eq kernel.x k.ring.zero in
      let step = small_step k sqrt singular p.curve kernel in
      let (c, qs, found, on, count) =
        later_rounds n step.0 (step.1 p) (map step.1 pts)
          (map-AllOn step.0 step.1 pts (step-curve singular p.curve kernel)) in
      let test = ap (is_identity k) (double-doubled n p) ∙ order in
      (
        c,
        qs,
        ap
              (λ t. elim (not t) [
                | true ↦ none
                | false ↦ small_loop k sqrt n false step.0 (step.1 p) (map step.1 pts)
              ])
              test
            ∙ found,
        on,
        count ∙ length-map step.1 pts,
      )

  -- The chain of a generator whose double repeated e times, at least once, is not the identity fails.
  pub isogeny_small-fails :
      (p : ProjectiveXOnlyPoint k) (n : ℕ) (pts : List (ProjectiveXOnlyPoint k))
      → is_identity k (doubled k sqrt (suc n) p) ≡ false
      → isogeny_small k sqrt p (suc n) pts ≡ none
  unfolding isogeny_small small_loop
  isogeny_small-fails p n pts order =
      let kernel = doubled k sqrt n p in
      let step = small_step k sqrt (k.ct_eq kernel.x k.ring.zero) p.curve kernel in
      ap
        (λ t. elim (not t) [
          | true ↦ none
          | false ↦ small_loop k sqrt n false step.0 (step.1 p) (map step.1 pts)
        ])
        (ap (is_identity k) (double-doubled n p) ∙ order)
