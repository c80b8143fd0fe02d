-- ===== src/Curves/Point/Ladder.antt =====
-- The ladder with delayed swaps against the ladder of the textbooks, and the comparison of points.
use sqisign_selkie.Prelude.{◌≡◌, ◌≢◌, refl, sym, ap, ap₂, ◌∙◌, List, [], ◌∷◌, Bool, true, false}
use sqisign_selkie.Ring.Polynomial.{var, ◌⊕◌, ◌⊖◌, ◌⊗◌, squared}
use sqisign_selkie.Ring.Sound.{solve}
use sqisign_selkie.Fields.{Field}
use sqisign_selkie.Fields.Laws.{cancel}
use sqisign_selkie.Curves.Montgomery.{Curve}
use sqisign_selkie.Curves.Point.{
  ProjectiveXOnlyPoint, identity, point_eq, double, differential_add, differential_double_add,
  conditional_swap, differ, ladder_loop, scalar_mul,
}
use sqisign_selkie.Curves.Point.Laws.{differential_double_add_lem}

module _ (k : Field) where
  open k.ring use {Carrier, zero, add, sub, mul, square}

  -- The ladder without swaps: after some bits of value n the points are n·p and (n + 1)·p.
  pub textbook_ladder :
      ProjectiveXOnlyPoint k
      → List Bool
      → ProjectiveXOnlyPoint k
      → ProjectiveXOnlyPoint k
      → ProjectiveXOnlyPoint k
  textbook_ladder p [] r0 r1 = r0
  textbook_ladder p (true ∷ bits) r0 r1 =
      textbook_ladder p bits (differential_add k r0 r1 p) (double k r1)
  textbook_ladder p (false ∷ bits) r0 r1 =
      textbook_ladder p bits (double k r0) (differential_add k r0 r1 p)

  abbrev order :
      Bool
      → ProjectiveXOnlyPoint k
      → ProjectiveXOnlyPoint k
      → ProjectiveXOnlyPoint k × ProjectiveXOnlyPoint k
  order false p q = (p, q)
  order true p q = (q, p)

  abbrev at : Carrier → Carrier → Curve k → ProjectiveXOnlyPoint k
  at x z e = record { x = x; z = z; curve = e }

  swap_lem :
      (c : Bool) (p q : ProjectiveXOnlyPoint k)
      → p.curve ≡ q.curve
      → conditional_swap k c p q ≡ order c p q
  unfolding conditional_swap
  swap_lem false p q e = refl
  swap_lem true p q e = ap₂ (λ s t. (at q.x q.z s, at p.x p.z t)) e (sym e)

  -- The delayed swap brings the points into the order for the next bit.
  swap-order :
      (prev cur : Bool) (p q : ProjectiveXOnlyPoint k)
      → p.curve ≡ q.curve
      → conditional_swap k (differ k prev cur) (order prev p q).0 (order prev p q).1 ≡ order cur p q
  swap-order false cur p q e = swap_lem cur p q e
  swap-order true false p q e = swap_lem true q p (sym e)
  swap-order true true p q e = swap_lem false q p (sym e)

  differential_add_comm :
      (p q d : ProjectiveXOnlyPoint k)
      → p.curve ≡ q.curve
      → differential_add k q p d ≡ differential_add k p q d
  unfolding differential_add
  differential_add_comm p q d e =
      let x = var 0 in
      let z = var 1 in
      let u = var 2 in
      let v = var 3 in
      let w = var 4 in
      let t0 = (x ⊕ z) ⊗ (u ⊖ v) in
      let t1 = (x ⊖ z) ⊗ (u ⊕ v) in
      let s0 = (u ⊕ v) ⊗ (x ⊖ z) in
      let s1 = (u ⊖ v) ⊗ (x ⊕ z) in
      ap₂ (λ s t. at s t q.curve)
        (solve k.ring (w ⊗ squared (s0 ⊕ s1)) (w ⊗ squared (t0 ⊕ t1))
          (p.x ∷ p.z ∷ q.x ∷ q.z ∷ d.z ∷ []) refl)
        (solve k.ring (w ⊗ squared (s0 ⊖ s1)) (w ⊗ squared (t0 ⊖ t1))
          (p.x ∷ p.z ∷ q.x ∷ q.z ∷ d.x ∷ []) refl)
      ∙ ap (at (differential_add k p q d).x (differential_add k p q d).z) (sym e)

  ladder_loop-textbook :
      (p : ProjectiveXOnlyPoint k) (bits : List Bool) (prev : Bool) (r0 r1 : ProjectiveXOnlyPoint k)
      → r0.curve ≡ r1.curve
      → ladder_loop k p bits prev (order prev r0 r1).0 (order prev r0 r1).1
        ≡ textbook_ladder p bits r0 r1
  unfolding ladder_loop textbook_ladder double differential_add
  ladder_loop-textbook p [] false r0 r1 e = ap (λ t. t.0) (swap_lem false r0 r1 e)
  ladder_loop-textbook p [] true r0 r1 e = ap (λ t. t.0) (swap_lem true r1 r0 (sym e))
  ladder_loop-textbook p (false ∷ bits) prev r0 r1 e =
      ap
        (λ s.
          ladder_loop k p bits false (differential_double_add k s.0 s.1 p).0
            (differential_double_add k s.0 s.1 p).1)
        (swap-order prev false r0 r1 e)
      ∙ ap (λ s. ladder_loop k p bits false s.0 s.1) (differential_double_add_lem k r0 r1 p)
      ∙ ladder_loop-textbook p bits false (double k r0) (differential_add k r0 r1 p) refl
  ladder_loop-textbook p (true ∷ bits) prev r0 r1 e =
      ap
        (λ s.
          ladder_loop k p bits true (differential_double_add k s.0 s.1 p).0
            (differential_double_add k s.0 s.1 p).1)
        (swap-order prev true r0 r1 e)
      ∙ ap (λ s. ladder_loop k p bits true s.0 s.1) (differential_double_add_lem k r1 r0 p)
      ∙ ap (ladder_loop k p bits true (double k r1)) (differential_add_comm r0 r1 p e)
      ∙ ladder_loop-textbook p bits true (differential_add k r0 r1 p) (double k r1) e

  -- The ladder with delayed swaps gives what the ladder without swaps gives, on any bits.
  pub scalar_mul-textbook :
      (bits : List Bool) (p : ProjectiveXOnlyPoint k)
      → scalar_mul k bits p ≡ textbook_ladder p bits (identity k p.curve) p
  unfolding scalar_mul identity
  scalar_mul-textbook bits p = ladder_loop-textbook p bits false (identity k p.curve) p refl

  -- Points that equal a proper point, one with a coordinate other than zero, are equal.
  pub point_eq_trans :
      (p q r : ProjectiveXOnlyPoint k)
      → q.z ≢ zero
      → point_eq k p q ≡ true
      → point_eq k q r ≡ true
      → point_eq k p r ≡ true
  unfolding point_eq
  point_eq_trans p q r ne h g = (k.ct_eq_iff (mul p.x r.z) (mul r.x p.z)).1 (
      cancel k q.z (mul p.x r.z) (mul r.x p.z) ne (
        solve k.ring (var 0 ⊗ (var 1 ⊗ var 2)) ((var 1 ⊗ var 0) ⊗ var 2) (q.z ∷ p.x ∷ r.z ∷ []) refl
        ∙ ap (λ t. mul t r.z) ((k.ct_eq_iff (mul p.x q.z) (mul q.x p.z)).0 h)
        ∙ solve k.ring ((var 0 ⊗ var 1) ⊗ var 2) ((var 0 ⊗ var 2) ⊗ var 1) (q.x ∷ p.z ∷ r.z ∷ [])
            refl
        ∙ ap (λ t. mul t p.z) ((k.ct_eq_iff (mul q.x r.z) (mul r.x q.z)).0 g)
        ∙ solve k.ring ((var 0 ⊗ var 1) ⊗ var 2) (var 1 ⊗ (var 0 ⊗ var 2)) (r.x ∷ q.z ∷ p.z ∷ [])
            refl))
