-- ===== src/StatusMonitor/Health.antt =====
-- moveit_planning_service/src/status_monitor.cpp: MoveItStatusClient::record_joint_state and
-- MoveItStatusClient::check_health. What the checks observe (services, futures, transforms, the
-- clock) is a record of answers; an early `return report` is the constructor `stop`.
pub mod Spec
pub mod Reports
pub mod Laws
use intrinsic_moveit.Prelude.{
  ℕ, zero, suc, ℤ, Str, codes, mem_str, is_empty, List, [], ◌∷◌, ◌++◌, Option, none, some, Bool,
  true, false, not, ◌&&◌, ◌||◌, ◌==◌, if◌then◌else◌,
}
use intrinsic_moveit.Double.{Double, milliseconds}
use intrinsic_moveit.Parameters.{ParameterValue, get_double_parameter}

pub record SubsystemHealthReport : Type 0 where
  pub healthy : Bool
  pub title : Str
  pub message : Str
  pub instructions : Str

-- The node's parameters that the checks read.
pub record Settings (W : Type 0) : Type 0 where
  pub ros_service_call_timeout_sec : Option (ParameterValue W)
  pub joint_state_timeout_sec : Option (ParameterValue W)
  pub expect_collision_objects : Bool
  pub use_mock_hardware : Bool
  pub planning_frame : Str
  pub robot_base_frame : Str
  pub tool_frame : Str
  pub expected_joints : List Str

-- What the joint state subscription has cached: the time of the last message in nanoseconds, 0 if
-- there was none, and the joint names of that message.
pub record JointCache : Type 0 where
  pub last_joint_state_time : ℕ
  pub received_joint_names : List Str

-- What became of the planning scene query.
pub data SceneReply : Type 0 where
  timed_out : SceneReply
  threw : Str → SceneReply
  -- the numbers of collision objects and of robot state joints
  replied : ℕ → ℕ → SceneReply

-- What the client's libraries answer during one health check.
pub record Surroundings (W : Type 0) : Type 0 where
  -- wait_for_service and the query's future, each within a timeout in milliseconds
  pub scene_service_up : ℤ → Bool
  pub scene_reply : ℤ → SceneReply
  pub motion_plan_ready : Bool
  pub grasp_plan_ready : Bool
  pub now : ℕ
  -- the seconds from a time to a later one
  pub seconds_since : ℕ → ℕ → W
  -- `none` if the transform is available, else the error text
  pub transform_error : Str → Str → Option Str
  -- "%.1f"
  pub one_decimal : W → Str

-- A check returns a report, or the next one runs.
pub data Check (A : Type 0) : Type 0 where
  stop : SubsystemHealthReport → Check A
  pass : A → Check A

infixl 5 ◌>>=◌ ◌>>◌
abbrev ◌>>=◌ : {A B : Type 0} → Check A → (A → Check B) → Check B
stop r >>= f = stop r
pass a >>= f = f a

abbrev ◌>>◌ : {B : Type 0} → Check (Unit {0}) → Check B → Check B
m >> k = m >>= λ _. k

abbrev unhealthy : {A : Type 0} → Str → Str → Str → Check A
unhealthy title message instructions =
    stop (record { healthy = false; title = title; message = message; instructions = instructions })

-- record_joint_state at the time `now`: the names are those of this message alone.
unfoldable pub record_joint_state : ℕ → List Str → JointCache → JointCache
record_joint_state now names cache = record {
  last_joint_state_time = now;
  received_joint_names = names;
}

-- `if (!test) { …; return report; }`
abbrev require : Bool → Str → Str → Str → Check (Unit {0})
require true title message instructions = pass tt
require false title message instructions = unhealthy title message instructions

scene_sizes : SceneReply → Check (ℕ × ℕ)
scene_sizes timed_out =
    unhealthy (codes "MoveIt Planning Scene Query Timed Out")
      (codes "MoveIt move_group did not respond to the planning scene query within timeout.")
      (codes
        "Check move_group logs for deadlock or heavy planning tasks blocking the node executor.")
scene_sizes (threw what) =
    unhealthy (codes "MoveIt Planning Scene Exception")
      (codes "Exception occurred when querying planning scene: " ++ what)
      (codes "Check MoveIt configuration and node logs for details.")
scene_sizes (replied objects joints) = pass (objects, joints)

-- The loop over the expected joints.
check_expected_joints : List Str → List Str → Check (Unit {0})
check_expected_joints received [] = pass tt
check_expected_joints received (joint ∷ joints) =
    require (mem_str joint received) (codes "Missing Expected Joints")
      (codes "Expected joint '" ++ (joint ++ codes "' was not found in /joint_states stream."))
      (codes "Check robot description model and override_joint_names in flowstate_ros_bridge.")
    >> check_expected_joints received joints

abbrev frames_joined : Option Str → Bool
frames_joined none = true
frames_joined (some error) = false

abbrev error_text : Option Str → Str
error_text none = []
error_text (some error) = error

report_of : Check (Unit {0}) → SubsystemHealthReport
report_of (stop report) = report
report_of (pass _) = record { healthy = true; title = []; message = []; instructions = [] }

module _ {W : Type 0} ⦃d : Double W⦄ where
  -- 1. Verify move_group is responsive; the sizes in the reply are passed on.
  check_move_group : Settings W → Surroundings W → Check (ℕ × ℕ)
  unfolding scene_sizes
  check_move_group c s = do
    let timeout = milliseconds (get_double_parameter c.ros_service_call_timeout_sec (d.ratio 2 1))
    require (s.scene_service_up timeout) (codes "MoveIt move_group is Offline")
        (codes "The MoveIt '/get_planning_scene' service is unreachable or not responding.")
        (codes
          "Ensure move_group is launched, robot_description parameters are valid, and MoveIt planning pipelines loaded successfully.")
    scene_sizes (s.scene_reply timeout)

  -- 4. Verify the joint states' health. 5. Verify MoveIt's own robot state.
  check_joint_states : Settings W → JointCache → Surroundings W → ℕ → Check (Unit {0})
  unfolding check_expected_joints
  check_joint_states c cache s num_robot_state_joints = do
    let js_timeout_sec = get_double_parameter c.joint_state_timeout_sec (d.ratio 3 1)
    require (not (cache.last_joint_state_time == 0)) (codes "Joint States Offline")
        (codes
          "/joint_states topic has not received any messages. Ensure flowstate_ros_bridge is running.")
        (codes
          "Launch upstream bridge via 'ros2 launch moveit_planning_service flowstate_ros_bridge.launch.py'.")
    let js_age_sec = s.seconds_since cache.last_joint_state_time s.now
    require (not (d.lt js_timeout_sec js_age_sec)) (codes "Joint States Stale")
        (codes "/joint_states stream is stale (last received "
          ++ (s.one_decimal js_age_sec
              ++ (codes "s ago, timeout is " ++ (s.one_decimal js_timeout_sec ++ codes "s)."))))
        (codes "Check flowstate_ros_bridge logs and Zenoh router connectivity.")
    check_expected_joints cache.received_joint_names c.expected_joints
    require (not (num_robot_state_joints == 0)) (codes "MoveIt Robot State Uninitialized")
        (codes "MoveIt move_group planning scene robot_state has 0 joint states populated.")
        (codes
          "Ensure joint_state_broadcaster or flowstate_ros_bridge is publishing to /joint_states.")

  -- 6. Check TF tree connectivity (planning_frame -> robot_base_frame -> tool_frame).
  check_transforms : Settings W → Surroundings W → Check (Unit {0})
  check_transforms c s = do
    let base_error = s.transform_error c.planning_frame c.robot_base_frame
    require (is_empty c.robot_base_frame || (is_empty c.planning_frame || frames_joined base_error))
        (codes "TF Tree Incomplete")
        (codes "Cannot transform from planning frame '"
          ++ (c.planning_frame
              ++ (codes "' to robot base frame '"
                  ++ (c.robot_base_frame ++ (codes "': " ++ error_text base_error)))))
        (codes
          "Ensure moveit_planning_service static transforms and flowstate_ros_bridge are running.")
    let tool_error = s.transform_error c.robot_base_frame c.tool_frame
    require (is_empty c.tool_frame || (is_empty c.robot_base_frame || frames_joined tool_error))
        (codes "TF Tree Incomplete")
        (codes "Cannot transform from robot base frame '"
          ++ (c.robot_base_frame
              ++ (codes "' to tool frame '"
                  ++ (c.tool_frame ++ (codes "': " ++ error_text tool_error)))))
        (codes
          "Ensure robot_state_publisher is receiving /joint_states and broadcasting tool transforms.")

  pub run_checks : Settings W → JointCache → Surroundings W → Check (Unit {0})
  run_checks c cache s = do
    (num_collision_objects, num_robot_state_joints) ← check_move_group c s
    require (s.motion_plan_ready && s.grasp_plan_ready) (codes "Planning Service Node Offline")
        (codes
          "The moveit_planning_node endpoints ('motion_planning/get_motion_plan', 'grasp_planning/plan_grasps') are not registered.")
        (codes "Ensure moveit_planning_node is running and has completed initialization.")
    require
        (c.use_mock_hardware
          || (not c.expect_collision_objects || not (num_collision_objects == 0)))
        (codes "Planning Scene Empty")
        (codes "MoveIt planning scene has 0 collision objects registered.")
        (codes
          "Ensure moveit_planning_service is connected to World service and trigger Enable to sync collision objects.")
    (if c.use_mock_hardware then pass tt else check_joint_states c cache s num_robot_state_joints)
    check_transforms c s

  unfoldable pub check_health : Settings W → JointCache → Surroundings W → SubsystemHealthReport
  unfolding run_checks check_move_group check_joint_states check_transforms report_of
  check_health c cache s = report_of (run_checks c cache s)
