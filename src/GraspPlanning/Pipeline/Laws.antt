-- ===== src/GraspPlanning/Pipeline/Laws.antt =====
-- What PlanGrasps returns with SUCCESS, and the action with PlanGrasps as its pipeline.
use intrinsic_moveit.GraspPlanning.Pipeline.Hand.{
  HasGripper, gripper_of-HasGripper, gripper_of-Stops,
}
use intrinsic_moveit.GraspPlanning.Pipeline.Gripper.{
  GripperMotion, GripperPositions, gripper_motion,
}
use intrinsic_moveit.GraspPlanning.Pipeline.Postures.{IsPosture, posture-IsPosture}
use intrinsic_moveit.GraspPlanning.Pipeline.Setup.{max_grasps-pos}
use intrinsic_moveit.GraspPlanning.Pipeline.Stops.{
  is_success, Stops, Ensures, result_of-holds, solutions_of-Stops, stop_rules, or_stop-some,
}
use intrinsic_moveit.GraspPlanning.Pipeline.{
  result_of, plan_grasps, gripper_of, or_stop, reached, attempt, object_box, gripper_motion,
  text_or_default, codes, setup_of,
}
use intrinsic_moveit.PlanningNode.Action.{execute_plan_grasps_action, max_grasps}
use intrinsic_moveit.PlanningNode.Action.Best.{execute-ne-planning_failed}
use intrinsic_moveit.GraspPlanning.Pipeline.Task.{RobotModel, JointGroup, Solution, Planner}
use intrinsic_moveit.Messages.{
  failure, invalid_group_name, success, planning_failed, GraspCandidate, PlanGraspsGoal,
  RankedGrasp,
}
use intrinsic_moveit.Prelude.{
  some, ℕ, ◌≤◌, ℤ, Str, length, All, List, [], Option, true, ◌≡◌, ◌≢◌, arith, Bool, not, is_empty,
}
use intrinsic_moveit.Double.{Double}
use intrinsic_moveit.GraspPlanning.TargetId.{resolve_target_object_id}
use intrinsic_moveit.GraspPlanning.SceneQuery.{PlanningSceneClient, get_planning_scene_object_ids}
use intrinsic_moveit.GraspPlanning.Pipeline.Ranking.{Transforms, ranked_grasps}
use intrinsic_moveit.GraspPlanning.Pipeline.Grasps.{IsFor, ranked_grasps-Ranked}

module _ {W I : Type 0} ⦃d : Double W⦄ (transforms : Transforms W I) (planner : Planner W I)
    (client : Option (PlanningSceneClient W)) (timeout : ℤ) where
  -- The target that a candidate of a request resolves to.
  abbrev pub target_of : GraspCandidate W → Str
  target_of candidate =
      resolve_target_object_id (get_planning_scene_object_ids client timeout) candidate.target_id

  -- What a planning with SUCCESS gives.
  pub record IsPlanned (goal : PlanGraspsGoal W) (candidate : GraspCandidate W) (index : ℕ)
      (grasps : List (RankedGrasp W)) : Type 0 where
    pub model : RobotModel W
    pub arm : JointGroup W
    pub gripper : List Str × GripperPositions W
    pub motion : GripperMotion W
    pub is_model : planner.robot_model ≡ some model
    pub is_arm : model.joint_group goal.group_name ≡ some arm
    pub has_gripper :
        HasGripper model (text_or_default goal.end_effector_group (codes "hand")) gripper
    pub opens : IsPosture goal gripper.0 has_gripper.opened motion.open_posture
    pub closes : IsPosture goal gripper.0 has_gripper.closed motion.closed_posture
    pub some_grasp : grasps ≢ []
    pub bounded : length grasps ≤ max_grasps goal.max_num_grasps
    pub all_for : All (IsFor transforms goal arm motion (target_of candidate) index) grasps

module _ {W I : Type 0} ⦃d : Double W⦄ (transforms : Transforms W I) (planner : Planner W I)
    (client : Option (PlanningSceneClient W)) (timeout : ℤ) where
  IsPlanned-of :
      (goal : PlanGraspsGoal W) (candidate : GraspCandidate W) (index : ℕ) (model : RobotModel W)
      (arm : JointGroup W) (gripper : List Str × GripperPositions W)
      (solutions : List (Solution W I))
      → or_stop planner.robot_model failure ≡ reached model
      → or_stop (model.joint_group goal.group_name) invalid_group_name ≡ reached arm
      → gripper_of model (text_or_default goal.end_effector_group (codes "hand")) ≡ reached gripper
      → let grasps =
          ranked_grasps transforms goal arm
            (gripper_motion goal model.model_frame gripper.0 gripper.1)
            (target_of transforms planner client timeout candidate)
            index
            0
            solutions in
        (not (is_empty grasps) ≡ true)
        → IsPlanned transforms planner client timeout goal candidate index (
            ranked_grasps transforms goal arm
              (gripper_motion goal model.model_frame gripper.0 gripper.1)
              (target_of transforms planner client timeout candidate)
              index
              0
              solutions)
  unfolding gripper_motion
  IsPlanned-of goal candidate index model arm gripper solutions m a g n =
      let eef = text_or_default goal.end_effector_group (codes "hand") in
      let has = (gripper_of-HasGripper model eef).holds gripper g in
      let r =
        ranked_grasps-Ranked transforms goal arm
          (gripper_motion goal model.model_frame gripper.0 gripper.1)
          (target_of transforms planner client timeout candidate) index solutions 0
          (max_grasps-pos goal.max_num_grasps) in
      record {
        model = model;
        arm = arm;
        gripper = gripper;
        motion = gripper_motion goal model.model_frame gripper.0 gripper.1;
        is_model = or_stop-some _ _ _ m;
        is_arm = or_stop-some _ _ _ a;
        has_gripper = has;
        opens =
            posture-IsPosture goal model.model_frame gripper.0 has.opened gripper.1.open_positions
              has.agree.0;
        closes =
            posture-IsPosture goal model.model_frame gripper.0 has.closed gripper.1.closed_positions
              has.agree.1;
        some_grasp = ground arith;
        bounded = omega (arith, r.bounded);
        all_for = r.all_for;
      }

  pub object_box-Stops :
      (candidate : GraspCandidate W) (target : Str)
      → Stops (object_box transforms client timeout candidate target)
  unfolding object_box is_success
  object_box-Stops candidate target = search stop_rules

  attempt-IsPlanned :
      (goal : PlanGraspsGoal W) (candidate : GraspCandidate W) (index : ℕ)
      → Ensures
          (IsPlanned transforms planner client timeout goal candidate index)
          (attempt transforms planner client timeout goal candidate index)
  unfolding attempt is_success setup_of
  attempt-IsPlanned goal candidate index =
      search (stop_rules, IsPlanned-of, gripper_of-Stops, object_box-Stops, solutions_of-Stops)
        depth 16

  -- A planning that reports SUCCESS has a grasp, and at most as many as the goal asks for; each is
  -- for the candidate and the target it resolves to, the one object it may touch, with the arm's
  -- joints in both solutions and the pre-grasp pose in the frame of the grasp. Its postures take each
  -- joint of the gripper to the named states "open" and "closed", in the duration of the motion.
  pub plan_grasps-IsPlanned :
      (goal : PlanGraspsGoal W) (candidate : GraspCandidate W) (index : ℕ)
      → (plan_grasps transforms planner client timeout goal candidate index).error_code ≡ success
      → IsPlanned transforms planner client timeout goal candidate index
          (plan_grasps transforms planner client timeout goal candidate index).ranked_grasps
  unfolding plan_grasps result_of is_success
  plan_grasps-IsPlanned goal candidate index h =
      result_of-holds _ _ (attempt-IsPlanned goal candidate index) h

  -- With this pipeline, an action on a goal with a candidate never ends with "planning failed",
  -- whatever the planner and the scene answer and whenever cancellation comes.
  pub plan_grasps-ne-planning_failed :
      (canceling : ℕ → Bool) (goal : PlanGraspsGoal W)
      → goal.candidates ≢ []
      → (execute_plan_grasps_action
          (plan_grasps transforms planner client timeout)
          canceling
          goal).result.error_code
        ≢ planning_failed
  plan_grasps-ne-planning_failed canceling goal some_candidate =
      execute-ne-planning_failed (plan_grasps transforms planner client timeout) canceling goal
        (λ c index h. (plan_grasps-IsPlanned goal c index h).some_grasp) some_candidate
