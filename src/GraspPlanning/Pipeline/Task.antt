-- ===== src/GraspPlanning/Pipeline/Task.antt =====
-- moveit_planning_service/src/grasp_planning_pipeline.cpp: what PlanGrasps gets from the robot model
-- and from MoveIt Task Constructor, and the task that it sets up.
use intrinsic_moveit.GraspPlanning.Pipeline.SubSolution.{SolutionBase}
use intrinsic_moveit.Prelude.{
  ℕ, zero, suc, ℤ, pos, negsuc, Str, leb, List, [], ◌∷◌, Option, Dict, Bool, if◌then◌else◌,
}
use intrinsic_moveit.Double.{Double, is_pos}
use intrinsic_moveit.Messages.{Vector3, PoseStamped, MoveItErrorCode, PlanGraspsGoal}

-- moveit::core::JointModelGroup
pub record JointGroup (W : Type 0) : Type 0 where
  pub active_joint_names : List Str
  -- getLinkModelNamesWithCollisionGeometry
  pub collision_links : List Str
  -- getVariableDefaultPositions
  pub named_positions : Str → Option (Dict W)

-- moveit::core::RobotModel
pub record RobotModel (W : Type 0) : Type 0 where
  pub model_frame : Str
  pub has_end_effector : Str → Bool
  pub has_link : Str → Bool
  pub joint_group : Str → Option (JointGroup W)

-- What is read of a solution of the task.
pub record Solution (W I : Type 0) : Type 0 where
  -- There, no failure, and with a scene at its end.
  pub is_complete : Bool
  -- The property of the end; `none` if it is missing, which throws.
  pub target_pose : Option (PoseStamped W)
  pub grasp_positions : List W
  -- The solution with those that it is made of: the arm's positions and the IK frame in the scene at
  -- the start of each, if the start and its scene are there.
  pub sub_solutions : SolutionBase (Option (List W × I))
  -- setFromIK with the grasp state as the seed, for a pose of the IK frame.
  pub set_from_ik : I → Option (List W)
  -- getFrameTransform of the scene at the end
  pub frame_transform : Str → I
  pub cost : W

-- The properties of the task and its stages, without those that are the same for every task.
pub record TaskSetup (W I : Type 0) : Type 0 where
  pub group : Str
  pub eef : Str
  pub ik_frame : Str
  pub target_id : Str
  pub timeout_sec : W
  pub ik_timeout_sec : W
  pub min_approach : W
  pub max_approach : W
  -- The links that may touch the target.
  pub allowed_links : List Str
  pub surfaces : List ℕ
  pub num_rotations : ℕ
  pub box_dims : Vector3 W
  pub obj_t_obj_center : I
  pub max_num_grasps : ℕ

-- The end of init() and plan(): an exception, or the code and the solutions.
pub data TaskAnswer (W I : Type 0) : Type 0 where
  task_threw : TaskAnswer W I
  planned : MoveItErrorCode → List (Solution W I) → TaskAnswer W I

pub record Planner (W I : Type 0) : Type 0 where
  -- GetRobotModel
  pub robot_model : Option (RobotModel W)
  pub plan : TaskSetup W I → TaskAnswer W I

-- The surfaces from 0 to 5 that are asked for, or else all of them.
unfoldable pub valid_surfaces : List ℤ → List ℕ
valid_surfaces [] = []
valid_surfaces (pos n ∷ rest) =
    let valid = valid_surfaces rest in if leb n 5 then n ∷ valid else valid
valid_surfaces (negsuc n ∷ rest) = valid_surfaces rest

unfoldable pub all_if_empty : List ℕ → List ℕ
all_if_empty [] = 0 ∷ 1 ∷ 2 ∷ 3 ∷ 4 ∷ 5 ∷ []
all_if_empty (n ∷ ns) = n ∷ ns

unfoldable pub surfaces_to_use : List ℤ → List ℕ
unfolding valid_surfaces all_if_empty
surfaces_to_use surfaces = all_if_empty (valid_surfaces surfaces)

unfoldable pub rotations_to_use : ℤ → ℕ
rotations_to_use (pos zero) = 4
rotations_to_use (pos (suc n)) = suc n
rotations_to_use (negsuc n) = 4

module _ {W : Type 0} ⦃d : Double W⦄ where
  unfoldable pub retract_distance : PlanGraspsGoal W → W
  retract_distance goal = if is_pos goal.retract_dist_m then goal.retract_dist_m else d.ratio 5 100
