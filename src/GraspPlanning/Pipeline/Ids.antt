-- ===== src/GraspPlanning/Pipeline/Ids.antt =====
-- The ids of the grasps of a planning, read back as numbers.
use intrinsic_moveit.GraspPlanning.Pipeline.Hand.{gripper_of-Stops}
use intrinsic_moveit.Prelude.{
  ℕ, ◌+◌, ℤ, Str, codes, drop, length, leb, range, List, [], ◌∷◌, Option, Option-cases, some, map,
  Bool-cases, ◌≡◌, refl, sym, ap, ◌∙◌, inl, inr, value_from, value_from-decimal,
}
use intrinsic_moveit.Double.{Double}
use intrinsic_moveit.Messages.{PlanGraspsGoal, GraspCandidate, RankedGrasp}
use intrinsic_moveit.PlanningNode.Action.{max_grasps}
use intrinsic_moveit.GraspPlanning.SceneQuery.{PlanningSceneClient}
use intrinsic_moveit.GraspPlanning.Pipeline.Task.{JointGroup, Solution, Planner, retract_distance}
use intrinsic_moveit.GraspPlanning.Pipeline.Gripper.{GripperMotion}
use intrinsic_moveit.GraspPlanning.Pipeline.Ranking.{
  Transforms, pregrasp_of, grasp_from, grasp_of, extend, ranked_grasps,
}
use intrinsic_moveit.GraspPlanning.Pipeline.{plan_grasps, attempt}
use intrinsic_moveit.GraspPlanning.Pipeline.Laws.{object_box-Stops}
use intrinsic_moveit.GraspPlanning.Pipeline.Stops.{
  Ensures, is_success, stop_rules, solutions_of-Stops, result_of-always,
}

module _ {W : Type 0} where
  -- The number behind "grasp_" in the id of a grasp.
  abbrev pub number_of : RankedGrasp W → ℕ
  number_of grasp = value_from 0 (drop 6 grasp.grasp.id)

  -- The ids of grasps count up from a number.
  abbrev pub Numbered : ℕ → List (RankedGrasp W) → Type 0
  Numbered count grasps = map number_of grasps ≡ range count (length grasps)

module _ {W I : Type 0} ⦃d : Double W⦄ (transforms : Transforms W I) (goal : PlanGraspsGoal W)
    (arm : JointGroup W) (motion : GripperMotion W) (target : Str) (index : ℕ) where
  grasp_of-number :
      (count : ℕ) (solution : Solution W I) (grasp : RankedGrasp W)
      → grasp_of transforms goal arm motion target index count solution ≡ some grasp
      → number_of grasp ≡ count
  unfolding grasp_of grasp_from codes
  grasp_of-number count solution grasp h = elim (Bool-cases solution.is_complete) [
    | inr c ↦ absurd (cc (rw c at h))
    | inl c ↦ elim (Option-cases solution.target_pose) [
      | inl t ↦ absurd (cc (rw (c, t) at h))
      | inr (pose, t) ↦
          elim (Option-cases (pregrasp_of transforms (retract_distance goal) pose solution)) [
            | inl p ↦ absurd (cc (rw (c, t, p) at h))
            | inr (pregrasp, p) ↦
                let q : grasp_from transforms goal arm motion target index count pose solution
                      pregrasp
                    ≡ grasp =
                  cc (rw (c, t, p) at h) in
                ap number_of (sym q) ∙ value_from-decimal count
          ]
    ]
  ]

  ranked_grasps-Numbered :
      (solutions : List (Solution W I)) (count : ℕ)
      → Numbered count (ranked_grasps transforms goal arm motion target index count solutions)
  unfolding ranked_grasps extend range
  ranked_grasps-Numbered [] count = refl
  ranked_grasps-Numbered (s ∷ rest) count =
      elim (Option-cases (grasp_of transforms goal arm motion target index count s)) [
        | inl e ↦ rw e (ranked_grasps-Numbered rest count)
        | inr (grasp, e) ↦ elim (Bool-cases (leb (max_grasps goal.max_num_grasps) (count + 1))) [
          | inl k ↦ rw (e, k, grasp_of-number count s grasp e) refl
          | inr k ↦
              rw (e, k, grasp_of-number count s grasp e, ranked_grasps-Numbered rest (count + 1))
                refl
        ]
      ]

module _ {W I : Type 0} ⦃d : Double W⦄ (transforms : Transforms W I) (planner : Planner W I)
    (client : Option (PlanningSceneClient W)) (timeout : ℤ) where
  attempt-Numbered :
      (goal : PlanGraspsGoal W) (candidate : GraspCandidate W) (index : ℕ)
      → Ensures (Numbered 0) (attempt transforms planner client timeout goal candidate index)
  unfolding attempt is_success
  attempt-Numbered goal candidate index =
      search
        (stop_rules, ranked_grasps-Numbered, object_box-Stops, gripper_of-Stops, solutions_of-Stops)
        depth 16

  -- Whatever a planning returns, the numbers read back from the ids of its grasps are 0, 1, 2 and so
  -- on, one for each grasp in order.
  pub plan_grasps-Numbered :
      (goal : PlanGraspsGoal W) (candidate : GraspCandidate W) (index : ℕ)
      → Numbered 0
          (plan_grasps transforms planner client timeout goal candidate index).ranked_grasps
  unfolding plan_grasps range
  plan_grasps-Numbered goal candidate index =
      result_of-always (Numbered 0) _ (attempt-Numbered goal candidate index) refl
