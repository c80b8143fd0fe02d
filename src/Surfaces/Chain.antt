-- ===== src/Surfaces/Chain.antt =====
-- The chain of (2,2)-isogenies of `Kernel::isogeny_inner` in src/surfaces/mod.rs. The vectors
-- `strat_pts`, or `theta_strat`, and `orders` are one stack of pairs, the last index first. `none`
-- stands for a panic (an index out of range, an order below zero) or a loop that does not end, and
-- `some none` for the answer `None`. The assertion that debug builds make of the kernel is left out.
pub mod Laws
pub mod Tail
use sqisign_selkie.Prelude.{
  ℕ, zero, suc, ◌+◌, ◌-◌, ◌/◌, Bool, true, false, Option, none, some, List, [], ◌∷◌, map, ◌==◌, ltb,
}
use sqisign_selkie.Int.{ℤ, pos, negsuc, ◌-ℤ◌}
use sqisign_selkie.Fields.{Field}
use sqisign_selkie.Curves.Jacobian.{JacobianPoint as CurveJacobianPoint, double_for_theta, to_xz}
use sqisign_selkie.Surfaces.{Jacobian, JacobianPoint, double}
use sqisign_selkie.Surfaces.Step.{
  EightTorsionStepKernel, interior, penultimate, ultimate, StepIsogeny, eight_isogeny, eval,
}
use sqisign_selkie.Surfaces.Gluing.{
  ProductPoint, JacobianProductPoint, GluingKernel, GluingData, gluing_isogeny, eval_gluing,
  eval_special,
}
use sqisign_selkie.Surfaces.Splitting.{EllipticProduct, splitting_isogeny}

-- The number of doublings from an order to the next one, before the gluing and behind it.
abbrev pub curve_doublings : ℕ → ℕ
curve_doublings o = elim (ltb o 16) [ true ↦ o - 1 | false ↦ o / 2 ]

abbrev pub theta_doublings : ℕ → ℕ
theta_doublings o = o / 2

abbrev pub Stack : Type 0 → Type 0
Stack A = List (ℕ × A)

abbrev pub top_order : {A : Type 0} → Stack A → ℕ
top_order [] = 0
top_order ((o, p) ∷ s) = o

-- The inner loop: points are pushed until the order is 1.
unfoldable pub descend : {A : Type 0} → (ℕ → ℕ) → (ℕ → A → A) → ℕ → Stack A → Option (Stack A)
descend count double_by zero s = none
descend count double_by (suc fuel) [] = none
descend count double_by (suc fuel) ((o, p) ∷ s) = elim (o == 1) [
  | true ↦ some ((o, p) ∷ s)
  | false ↦ descend count double_by fuel ((o - count o, double_by (count o) p) ∷ (o, p) ∷ s)
]

-- The images of the points that are left, whose orders go down by 1.
unfoldable pub lowered : {A B : Type 0} → (A → B) → Stack A → Option (Stack B)
lowered f [] = some []
lowered f ((o, p) ∷ s) = elim (o == 0) [
  | true ↦ none
  | false ↦ elim (lowered f s) [ none ↦ none | some t ↦ some ((o - 1, f p) ∷ t) ]
]

-- The condition of the main loop, turned.
abbrev pub finished : {A : Type 0} → Stack A → Bool
finished [] = true
finished ((o, p) ∷ []) = o == 0
finished ((o, p) ∷ t ∷ s) = false

module _ (k : Field) where
  abbrev pub CurvePair : Type 0
  CurvePair = JacobianProductPoint k × JacobianProductPoint k

  abbrev pub ThetaPair : Type 0
  ThetaPair = JacobianPoint k × JacobianPoint k

  pub record Kernel : Type 0 where
    pub domain : EllipticProduct k
    pub p : JacobianProductPoint k
    pub q : JacobianProductPoint k

  unfoldable pub double_curve_pair : ℕ → CurvePair → CurvePair
  double_curve_pair zero p = p
  double_curve_pair (suc n) (r, s) = double_curve_pair n (
    (double_for_theta k r.0, double_for_theta k r.1),
    (double_for_theta k s.0, double_for_theta k s.1),
  )

  unfoldable pub double_theta_pair : ℕ → ThetaPair → ThetaPair
  double_theta_pair zero p = p
  double_theta_pair (suc n) (r, s) = double_theta_pair n (double k r, double k s)

  -- The choice of the step.
  abbrev pub step_kernel : ℤ → JacobianPoint k → JacobianPoint k → EightTorsionStepKernel k
  step_kernel (pos zero) t1 t2 = interior t1 t2
  step_kernel (pos (suc zero)) t1 t2 = ultimate t1 t2
  step_kernel (pos (suc (suc zero))) t1 t2 = penultimate t1 t2
  step_kernel (pos (suc (suc (suc n)))) t1 t2 = interior t1 t2
  step_kernel (negsuc n) t1 t2 = interior t1 t2

  abbrev pub eval_pair : StepIsogeny k → ThetaPair → ThetaPair
  eval_pair iso (r, s) = (eval k iso r, eval k iso s)

  -- The main loop, with the steps that remain, and what is left of them behind it.
  unfoldable pub theta_loop :
      ℕ
      → ℤ
      → Jacobian k
      → Stack ThetaPair
      → List (JacobianPoint k)
      → Option (ℤ × Jacobian k × List (JacobianPoint k))
  theta_loop zero steps current s pts = none
  theta_loop (suc fuel) steps current s pts = elim (finished s) [
    | true ↦ some (steps, current, pts)
    | false ↦ elim (descend theta_doublings double_theta_pair (top_order s) s) [
      | none ↦ none
      | some [] ↦ none
      | some ((o, t) ∷ rest) ↦
          let iso = eight_isogeny k (step_kernel steps t.0 t.1) in
          elim (lowered (eval_pair iso) rest) [
            | none ↦ none
            | some next ↦ theta_loop fuel (steps -ℤ pos 1) iso.codomain next (map (eval k iso) pts)
          ]
    ]
  ]

  abbrev pub to_product : JacobianProductPoint k → ProductPoint k
  to_product (p, q) = (to_xz k p, to_xz k q)

  -- The kernel of the gluing, from the top of the stack.
  abbrev pub gluing_of : CurvePair → GluingKernel k
  gluing_of (t1, t2) = record { t1 = to_product t1; t1_jac = t1; t2 = to_product t2; t2_jac = t2 }

  -- A pair of points of the stack through the gluing.
  abbrev pub eval_gluing_pair : Kernel → CurvePair → GluingData k → CurvePair → ThetaPair
  eval_gluing_pair kernel top glued (r, s) =
      let a1 = kernel.domain.e1.affine in
      let a2 = kernel.domain.e2.affine in
      (eval_gluing k r top.0 a1 a2 glued, eval_gluing k s top.0 a1 a2 glued)

  -- The three phases before the splitting.
  unfoldable pub glue_and_walk :
      Kernel → ℕ → List (ProductPoint k) → Option (ℤ × Jacobian k × List (JacobianPoint k))
  glue_and_walk kernel e pts =
      elim (descend curve_doublings double_curve_pair e ((e, (kernel.p, kernel.q)) ∷ [])) [
        | none ↦ none
        | some [] ↦ none
        | some ((o, top) ∷ rest) ↦
            let (glued, images) = gluing_isogeny k (gluing_of top) [] in
            let theta_pts = map (λ p. eval_special k p glued) pts in
            elim (lowered (eval_gluing_pair kernel top glued) rest) [
              | none ↦ none
              | some theta_strat ↦
                  theta_loop e (pos e -ℤ pos 1) glued.codomain theta_strat theta_pts
            ]
      ]

  unfoldable pub isogeny_inner :
      (i : k.ring.Carrier)
      → Kernel
      → ℕ
      → List (ProductPoint k)
      → Option (List ℕ)
      → Option (Option (EllipticProduct k × List (ProductPoint k)))
  isogeny_inner i kernel e pts randomize = elim (ltb e 2) [
    | true ↦ some none
    | false ↦ elim (glue_and_walk kernel e pts) [
      | none ↦ none
      | some (steps, current, theta_pts) ↦ some (splitting_isogeny k i current theta_pts randomize)
    ]
  ]
