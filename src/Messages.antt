-- ===== src/Messages.antt =====
-- moveit_planning_interfaces/action/PlanGrasps.action and moveit_planning_interfaces/msg: the goal,
-- candidates and ranked grasps of the grasp planning action, over the doubles `W`, with the fields
-- that the node and the skills read.
use intrinsic_moveit.Prelude.{ℕ, ℤ, Str, List}

pub record Vector3 (W : Type 0) : Type 0 where
  pub x : W
  pub y : W
  pub z : W

pub record Quaternion (W : Type 0) : Type 0 where
  pub x : W
  pub y : W
  pub z : W
  pub w : W

pub record Pose (W : Type 0) : Type 0 where
  pub position : Vector3 W
  pub orientation : Quaternion W

pub record PoseStamped (W : Type 0) : Type 0 where
  pub frame_id : Str
  pub pose : Pose W

pub record JointState (W : Type 0) : Type 0 where
  pub name : List Str
  pub position : List W

-- moveit_msgs/MoveItErrorCodes: the values that the program names, and any other.
pub data MoveItErrorCode : Type 0 where
  success failure planning_failed preempted timed_out invalid_object_name : MoveItErrorCode
  invalid_group_name invalid_robot_state start_state_in_collision : MoveItErrorCode
  goal_in_collision no_ik_solution : MoveItErrorCode
  other_code : ℤ → MoveItErrorCode

pub record GraspCandidate (W : Type 0) : Type 0 where
  pub target_id : Str
  pub obj_dims_in_meters : Vector3 W
  pub obj_t_obj_center : Pose W

pub record PlanGraspsGoal (W : Type 0) : Type 0 where
  pub group_name : Str
  pub end_effector_group : Str
  pub tool_frame : Str
  pub planning_timeout_sec : W
  pub gripper_motion_duration_sec : W
  pub retract_dist_m : W
  pub surfaces : List ℤ
  pub num_rotations : ℤ
  pub max_num_grasps : ℤ
  pub candidates : List (GraspCandidate W)

-- trajectory_msgs/JointTrajectory. The time is in the seconds that rclcpp::Duration::from_seconds is
-- given.
pub record JointTrajectoryPoint (W : Type 0) : Type 0 where
  pub positions : List W
  pub time_from_start : W

pub record JointTrajectory (W : Type 0) : Type 0 where
  pub frame_id : Str
  pub joint_names : List Str
  pub points : List (JointTrajectoryPoint W)

-- moveit_msgs/GripperTranslation
pub record GripperTranslation (W : Type 0) : Type 0 where
  pub frame_id : Str
  pub direction : Vector3 W
  pub desired_distance : W
  pub min_distance : W

-- moveit_msgs/Grasp
pub record Grasp (W : Type 0) : Type 0 where
  pub id : Str
  pub pre_grasp_posture : JointTrajectory W
  pub grasp_posture : JointTrajectory W
  pub grasp_pose : PoseStamped W
  pub grasp_quality : W
  pub pre_grasp_approach : GripperTranslation W
  pub post_grasp_retreat : GripperTranslation W
  pub post_place_retreat : GripperTranslation W
  pub max_contact_force : W
  pub allowed_touch_objects : List Str

pub record RankedGrasp (W : Type 0) : Type 0 where
  pub candidate_index : ℕ
  pub target_id : Str
  pub grasp : Grasp W
  pub pre_grasp_pose : PoseStamped W
  pub grasp_ik_solution : JointState W
  pub pregrasp_ik_solution : JointState W

pub record PlanGraspsResult (W : Type 0) : Type 0 where
  pub ranked_grasps : List (RankedGrasp W)
  pub error_code : MoveItErrorCode
