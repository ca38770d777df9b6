-- ===== src/GraspSkill/Params.antt =====
-- moveit_plan_grasp_skill/src/moveit_plan_grasp_skill/moveit_plan_grasp_skill.proto: the parameters
-- and the result of the skill, as the accessors of the messages give them. `Option` is a field
-- with a `has_` accessor, `none` the field that is not set.
use intrinsic_moveit.Prelude.{ℤ, Str, List, Option, Bool}
use intrinsic_moveit.Messages.{Vector3, Quaternion}

-- intrinsic_proto.world.ObjectReference
pub record ObjectReference : Type 0 where
  pub id : Str
  pub by_name : Option Str

pub record FrameName : Type 0 where
  pub object_name : Str
  pub frame_name : Str

pub record TransformNodeName : Type 0 where
  pub frame : Option FrameName
  pub object : Option Str

-- intrinsic_proto.world.TransformNodeReference
pub record TransformNodeReference : Type 0 where
  pub id : Str
  pub by_name : Option TransformNodeName

pub record CenterPose (W : Type 0) : Type 0 where
  pub position : Option (Vector3 W)
  pub orientation : Option (Quaternion W)

-- intrinsic_proto.grasping.BoxShapedGraspAnnotationParams
pub record BoxGraspAnnotations (W : Type 0) : Type 0 where
  pub surfaces : List ℤ
  pub num_rotations : ℤ
  pub obj_dims_in_meters : Option (Vector3 W)
  pub obj_t_obj_center : Option (CenterPose W)

pub record GraspPlanningParams (W : Type 0) : Type 0 where
  pub candidate_objects : List ObjectReference
  pub tool_frame : Option TransformNodeReference
  pub box_grasp_annotations : Option (BoxGraspAnnotations W)
  pub output_grasp_frame : Option TransformNodeReference
  pub output_pregrasp_frame : Option TransformNodeReference
  pub retract_dist_m : Option W
  pub group_name : Option Str
  pub timeout_ms : Option W
  pub end_effector_group : Option Str
  pub plan_id : Option Str
  pub max_num_grasps : Option ℤ
  pub gripper_motion_duration_sec : Option W

-- intrinsic_proto.grasping.PoseBasedGrasp
pub record PoseBasedGrasp (W : Type 0) : Type 0 where
  pub grasp_id : Str
  pub object : ObjectReference
  pub object_frame : Option TransformNodeReference
  pub grasp_frame : Option TransformNodeReference
  pub pre_grasp_frame : Option TransformNodeReference
  pub pregrasp_ik_solution : List W
  pub grasp_ik_solution : List W

pub record GraspPlanningResult (W : Type 0) : Type 0 where
  pub grasps : List (PoseBasedGrasp W)
  pub plan_id : Str
  pub success : Bool
