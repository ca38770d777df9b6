-- ===== src/GraspPlanning/Pipeline.antt =====
-- moveit_planning_service/src/grasp_planning_pipeline.cpp: PlanGrasps, from the request to the ranked
-- grasps. The node is there.
pub mod SubSolution
pub mod ModelCache
pub mod Task
pub mod Gripper
pub mod Ranking
pub mod Postures
pub mod Stops
pub mod Grasps
pub mod Hand
pub mod Setup
pub mod Laws
pub mod Ids
mod Tests
use intrinsic_moveit.GraspPlanning.Pipeline.Gripper.{gripper_positions, gripper_motion}
use intrinsic_moveit.Prelude.{
  ℕ, ◌+◌, ℤ, Str, codes, is_empty, contains, leb, List, [], ◌∷◌, ◌++◌, Option, none, some, Bool,
  true, false, not, ◌&&◌, if◌then◌else◌, text_or_default,
}
use intrinsic_moveit.Double.{Double, nought, is_pos, min_double, max_double}
use intrinsic_moveit.Messages.{
  Vector3, Quaternion, Pose, PoseStamped, JointState, MoveItErrorCode, success, failure,
  planning_failed, invalid_object_name, invalid_group_name, invalid_robot_state, GraspCandidate,
  PlanGraspsGoal, Grasp, RankedGrasp, PlanGraspsResult,
}
use intrinsic_moveit.PlanningNode.Action.{max_grasps}
use intrinsic_moveit.SceneSync.World.{CollisionObject}
use intrinsic_moveit.GraspPlanning.TargetId.{resolve_target_object_id}
use intrinsic_moveit.GraspPlanning.SceneQuery.{
  PlanningSceneClient, get_planning_scene_object_ids, get_planning_scene_collision_object,
  resolve_candidate_timeout_sec,
}
use intrinsic_moveit.GraspPlanning.ObjectGeometry.{
  Isometries, ObjectBoundingBox, pose_to_isometry, compute_object_bounding_box,
}
use Gripper.{GripperPositions}
use Task.{
  JointGroup, RobotModel, Solution, TaskSetup, TaskAnswer, task_threw, planned, Planner,
  surfaces_to_use, rotations_to_use, retract_distance,
}
use Ranking.{Transforms, ranked_grasps}

-- The function returns with an error code, or goes on.
pub data Attempt (A : Type 0) : Type 0 where
  stopped : MoveItErrorCode → Attempt A
  reached : A → Attempt A

infixl 5 ◌>>=◌ ◌>>◌
abbrev pub ◌>>=◌ : {A B : Type 0} → Attempt A → (A → Attempt B) → Attempt B
stopped c >>= f = stopped c
reached a >>= f = f a

abbrev pub ◌>>◌ : {B : Type 0} → Attempt (Unit {0}) → Attempt B → Attempt B
m >> k = m >>= λ _. k

abbrev pub require : Bool → MoveItErrorCode → Attempt (Unit {0})
require true code = reached tt
require false code = stopped code

abbrev pub or_stop : {A : Type 0} → Option A → MoveItErrorCode → Attempt A
or_stop none code = stopped code
or_stop (some a) code = reached a

module _ {W : Type 0} where
  -- The gripper's joints, and their positions in the named states "open" and "closed".
  unfoldable pub gripper_of : RobotModel W → Str → Attempt (List Str × GripperPositions W)
  gripper_of model eef = do
    hand ← or_stop (model.joint_group eef) invalid_group_name
    opened ← or_stop (hand.named_positions (codes "open")) invalid_robot_state
    closed ← or_stop (hand.named_positions (codes "closed")) invalid_robot_state
    positions ←
        or_stop (gripper_positions hand.active_joint_names opened closed) invalid_robot_state
    reached (hand.active_joint_names, positions)

module _ {W I : Type 0} where
  -- The gripper may touch the target with the links of its group, if there is such a group.
  unfoldable pub allow_collisions : RobotModel W → TaskSetup W I → TaskSetup W I
  allow_collisions model setup = elim (model.joint_group setup.eef) [
    | none ↦ setup
    | some hand ↦ record setup { allowed_links = hand.collision_links }
  ]

  unfoldable pub solutions_of : TaskAnswer W I → Attempt (List (Solution W I))
  solutions_of task_threw = stopped failure
  solutions_of (planned success []) = stopped planning_failed
  solutions_of (planned success (s ∷ ss)) = reached (s ∷ ss)
  solutions_of (planned _ ss) = stopped planning_failed

module _ {W : Type 0} where
  unfoldable pub result_of : Attempt (List (RankedGrasp W)) → PlanGraspsResult W
  result_of (stopped code) = record { ranked_grasps = []; error_code = code }
  result_of (reached grasps) = record { ranked_grasps = grasps; error_code = success }

module _ {W I : Type 0} ⦃d : Double W⦄ where
  unfoldable pub setup_of : PlanGraspsGoal W → Str → ObjectBoundingBox W I → TaskSetup W I
  setup_of goal target bounding_box =
      let timeout = resolve_candidate_timeout_sec goal in
      record {
        group = goal.group_name;
        eef = text_or_default goal.end_effector_group (codes "hand");
        ik_frame = text_or_default goal.tool_frame (codes "hande_tcp");
        target_id = target;
        timeout_sec = timeout;
        ik_timeout_sec = min_double (d.ratio 2 10) timeout;
        min_approach = d.mul (retract_distance goal) (d.ratio 1 2);
        max_approach = retract_distance goal;
        allowed_links = [];
        surfaces = surfaces_to_use goal.surfaces;
        num_rotations = rotations_to_use goal.num_rotations;
        box_dims = bounding_box.dimensions;
        obj_t_obj_center = bounding_box.center_transform;
        max_num_grasps = max_grasps goal.max_num_grasps;
      }

module _ {W I : Type 0} ⦃d : Double W⦄ (transforms : Transforms W I) where
  -- With a box in the request, or else from the object of the planning scene.
  unfoldable pub object_box :
      Option (PlanningSceneClient W) → ℤ → GraspCandidate W → Str → Attempt (ObjectBoundingBox W I)
  object_box client timeout candidate target =
      let dims = candidate.obj_dims_in_meters in
      if is_pos dims.x && (is_pos dims.y && is_pos dims.z)
      then reached (record {
        dimensions = dims;
        center_transform = pose_to_isometry transforms.isometries candidate.obj_t_obj_center;
      })
      else (or_stop (get_planning_scene_collision_object client target timeout) invalid_object_name
          >>= λ object. or_stop (compute_object_bounding_box transforms.isometries object) failure)

  unfoldable pub attempt :
      Planner W I
      → Option (PlanningSceneClient W)
      → ℤ
      → PlanGraspsGoal W
      → GraspCandidate W
      → ℕ
      → Attempt (List (RankedGrasp W))
  attempt planner client timeout goal candidate index = do
    require (not (is_empty candidate.target_id)) invalid_object_name
    let target =
        resolve_target_object_id (get_planning_scene_object_ids client timeout) candidate.target_id
    bounding_box ← object_box client timeout candidate target
    let setup = setup_of goal target bounding_box
    require (not (is_empty goal.group_name)) invalid_group_name
    model ← or_stop planner.robot_model failure
    require (model.has_end_effector setup.eef && model.has_link setup.ik_frame) invalid_robot_state
    solutions ← solutions_of (planner.plan (allow_collisions model setup))
    arm ← or_stop (model.joint_group goal.group_name) invalid_group_name
    gripper ← gripper_of model setup.eef
    let motion = gripper_motion goal model.model_frame gripper.0 gripper.1
    let grasps = ranked_grasps transforms goal arm motion target index 0 solutions
    require (not (is_empty grasps)) planning_failed
    reached grasps

  unfoldable pub plan_grasps :
      Planner W I
      → Option (PlanningSceneClient W)
      → ℤ
      → PlanGraspsGoal W
      → GraspCandidate W
      → ℕ
      → PlanGraspsResult W
  unfolding attempt result_of
  plan_grasps planner client timeout goal candidate index =
      result_of (attempt planner client timeout goal candidate index)
