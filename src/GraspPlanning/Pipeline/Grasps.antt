-- ===== src/GraspPlanning/Pipeline/Grasps.antt =====
-- The loop over the solutions of the task: what the grasps that it takes are for, and how many.
use intrinsic_moveit.GraspPlanning.Pipeline.Gripper.{GripperMotion}
use intrinsic_moveit.PlanningNode.Action.{max_grasps}
use intrinsic_moveit.GraspPlanning.Pipeline.Task.{retract_distance, JointGroup, Solution}
use intrinsic_moveit.Messages.{PlanGraspsGoal, RankedGrasp}
use intrinsic_moveit.Prelude.{
  some, refl, subst, ℕ, ◌+◌, ◌≤◌, Str, length, leb, All, List, [], ◌∷◌, Option-cases, Bool-cases,
  ◌≡◌, arith, inl, inr,
}
use intrinsic_moveit.Double.{Double}
use intrinsic_moveit.GraspPlanning.Pipeline.Ranking.{
  Transforms, pregrasp_of, grasp_from, grasp_of, extend, ranked_grasps,
}

module _ {W I : Type 0} ⦃d : Double W⦄ (transforms : Transforms W I) (goal : PlanGraspsGoal W)
    (arm : JointGroup W) (motion : GripperMotion W) (target : Str) (index : ℕ) where
  -- The grasp is for the candidate and its resolved target, which it may touch, with the arm's joints
  -- in both solutions and the postures of the gripper's motion.
  pub record IsFor (grasp : RankedGrasp W) : Type 0 where
    pub for_candidate : grasp.candidate_index ≡ index
    pub for_target : grasp.target_id ≡ target
    pub grasp_joints : grasp.grasp_ik_solution.name ≡ arm.active_joint_names
    pub pregrasp_joints : grasp.pregrasp_ik_solution.name ≡ arm.active_joint_names
    pub open_posture : grasp.grasp.pre_grasp_posture ≡ motion.open_posture
    pub closed_posture : grasp.grasp.grasp_posture ≡ motion.closed_posture
    pub touched : grasp.grasp.allowed_touch_objects ≡ target ∷ []
    pub same_frame : grasp.pre_grasp_pose.frame_id ≡ grasp.grasp.grasp_pose.frame_id

  grasp_of-IsFor :
      (count : ℕ) (solution : Solution W I) (grasp : RankedGrasp W)
      → grasp_of transforms goal arm motion target index count solution ≡ some grasp
      → IsFor grasp
  unfolding grasp_of grasp_from
  grasp_of-IsFor count solution grasp h = elim (Bool-cases solution.is_complete) [
    | inr c ↦ absurd (cc (rw c at h))
    | inl c ↦ elim (Option-cases solution.target_pose) [
      | inl t ↦ absurd (cc (rw (c, t) at h))
      | inr (pose, t) ↦
          elim (Option-cases (pregrasp_of transforms (retract_distance goal) pose solution)) [
            | inl p ↦ absurd (cc (rw (c, t, p) at h))
            | inr (pregrasp, p) ↦
                let q : grasp_from transforms goal arm motion target index count pose solution
                      pregrasp
                    ≡ grasp =
                  cc (rw (c, t, p) at h) in
                subst IsFor q (record {
                  for_candidate = refl;
                  for_target = refl;
                  grasp_joints = refl;
                  pregrasp_joints = refl;
                  open_posture = refl;
                  closed_posture = refl;
                  touched = refl;
                  same_frame = refl;
                })
          ]
    ]
  ]

  pub record Ranked (count : ℕ) (grasps : List (RankedGrasp W)) : Type 0 where
    pub all_for : All IsFor grasps
    pub bounded : length grasps + count ≤ max_grasps goal.max_num_grasps

  pub ranked_grasps-Ranked :
      (solutions : List (Solution W I)) (count : ℕ)
      → count + 1 ≤ max_grasps goal.max_num_grasps
      → Ranked count (ranked_grasps transforms goal arm motion target index count solutions)
  unfolding ranked_grasps extend
  ranked_grasps-Ranked [] count h = record { all_for = tt; bounded = omega (arith, h) }
  ranked_grasps-Ranked (s ∷ rest) count h =
      elim (Option-cases (grasp_of transforms goal arm motion target index count s)) [
        | inl e ↦ rw e (ranked_grasps-Ranked rest count h)
        | inr (grasp, e) ↦ elim (Bool-cases (leb (max_grasps goal.max_num_grasps) (count + 1))) [
          | inl k ↦
              rw (e, k)
                (record {
                  all_for = (grasp_of-IsFor count s grasp e, tt);
                  bounded = omega (arith, h);
                })
          | inr k ↦
              (let r = ranked_grasps-Ranked rest (count + 1) (ground arith) in
                rw (e, k)
                  (record {
                    all_for = (grasp_of-IsFor count s grasp e, r.all_for);
                    bounded = omega (arith, r.bounded);
                  }))
        ]
      ]
