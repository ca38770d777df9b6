-- ===== src/GraspSkill/Goal.antt =====
-- moveit_plan_grasp_skill/src/moveit_plan_grasp_skill/moveit_plan_grasp_skill.cpp:
-- CreatePlanGraspsGoal, the goal of the action from the parameters of the skill.
pub mod Laws
use intrinsic_moveit.Prelude.{
  ℤ, pos, zero, suc, negsuc, Str, codes, is_empty, List, [], ◌∷◌, map, Option, none, some, Bool,
  true, false, ◌&&◌, if◌then◌else◌,
}
use intrinsic_moveit.Double.{Double, nought, is_pos}
use intrinsic_moveit.Messages.{Vector3, Quaternion, Pose, GraspCandidate, PlanGraspsGoal}
use intrinsic_moveit.GraspSkill.Params.{
  ObjectReference, TransformNodeName, TransformNodeReference, CenterPose, BoxGraspAnnotations,
  GraspPlanningParams,
}

-- A field that is set to a text that is not empty, or else the default.
abbrev pub text_or : Option Str → Str → Str
text_or none default = default
text_or (some s) default = if is_empty s then default else s

-- A field that is set to a number above zero, or else the default.
abbrev pub count_or : Option ℤ → ℤ → ℤ
count_or (some (pos (suc n))) default = pos (suc n)
count_or _ default = default

-- The tool frame's id, or else the name of the frame, or else of the object.
object_name_of : Option Str → Str
object_name_of none = []
object_name_of (some name) = name

tool_frame_by_name : TransformNodeName → Str
unfolding object_name_of
tool_frame_by_name by_name = elim by_name.frame [
  | none ↦ object_name_of by_name.object
  | some frame ↦
      if is_empty frame.frame_name then object_name_of by_name.object else frame.frame_name
]

unfoldable pub tool_frame_name : Option TransformNodeReference → Str
unfolding tool_frame_by_name
tool_frame_name none = []
tool_frame_name (some node) =
    if is_empty node.id
    then elim node.by_name [ none ↦ [] | some by_name ↦ tool_frame_by_name by_name ]
    else node.id

-- The id of a candidate object, or else its name, or else nothing.
unfoldable pub target_id_of : ObjectReference → Str
target_id_of object =
    if is_empty object.id then elim object.by_name [ none ↦ [] | some name ↦ name ] else object.id

abbrev pub or_default : {A : Type 0} → Option A → A → A
or_default none default = default
or_default (some a) default = a

module _ {W : Type 0} ⦃d : Double W⦄ where
  abbrev pub positive_or : Option W → W → W
  positive_or none default = default
  positive_or (some x) default = if is_pos x then x else default

  abbrev pub finite_positive_or : Option W → W → W
  finite_positive_or none default = default
  finite_positive_or (some x) default = if d.is_finite x && is_pos x then x else default

  -- The messages' initial values: the origin, with the identity as its orientation.
  abbrev pub zero_vector : Vector3 W
  zero_vector = record { x = nought; y = nought; z = nought }

  abbrev pub identity : Quaternion W
  identity = record { x = nought; y = nought; z = nought; w = d.ratio 1 1 }

  box_dims : Option (BoxGraspAnnotations W) → Vector3 W
  box_dims none = zero_vector
  box_dims (some box) = or_default box.obj_dims_in_meters zero_vector

  center_of : Option (CenterPose W) → Pose W
  center_of none = record { position = zero_vector; orientation = identity }
  center_of (some center) = record {
    position = or_default center.position zero_vector;
    orientation = or_default center.orientation identity;
  }

  box_center : Option (BoxGraspAnnotations W) → Pose W
  unfolding center_of
  box_center none = center_of none
  box_center (some box) = center_of box.obj_t_obj_center

  unfoldable pub candidate_of : GraspPlanningParams W → ObjectReference → GraspCandidate W
  unfolding box_dims box_center
  candidate_of params object = record {
    target_id = target_id_of object;
    obj_dims_in_meters = box_dims params.box_grasp_annotations;
    obj_t_obj_center = box_center params.box_grasp_annotations;
  }

  surfaces_of : Option (BoxGraspAnnotations W) → List ℤ
  surfaces_of none = []
  surfaces_of (some box) = box.surfaces

  num_rotations_of : Option (BoxGraspAnnotations W) → ℤ
  num_rotations_of none = pos 0
  num_rotations_of (some box) = box.num_rotations

  unfoldable pub create_plan_grasps_goal : GraspPlanningParams W → PlanGraspsGoal W
  unfolding surfaces_of num_rotations_of
  create_plan_grasps_goal params = record {
    group_name = text_or params.group_name (codes "ur_manipulator");
    end_effector_group = text_or params.end_effector_group (codes "hand");
    tool_frame = tool_frame_name params.tool_frame;
    planning_timeout_sec =
        d.div (finite_positive_or params.timeout_ms (d.ratio 15000 1)) (d.ratio 1000 1);
    gripper_motion_duration_sec = positive_or params.gripper_motion_duration_sec (d.ratio 5 10);
    retract_dist_m = positive_or params.retract_dist_m (d.ratio 5 100);
    surfaces = surfaces_of params.box_grasp_annotations;
    num_rotations = num_rotations_of params.box_grasp_annotations;
    max_num_grasps = count_or params.max_num_grasps (pos 1);
    candidates = map (candidate_of params) params.candidate_objects;
  }
