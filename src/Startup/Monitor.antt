-- ===== src/Startup/Monitor.antt =====
-- moveit_planning_service/src/status_monitor_main.cpp and the constructor of MoveItStatusClient in
-- status_monitor.cpp: the settings of the status monitor, from the service configuration, the
-- command line and the defaults.
pub mod Laws
use intrinsic_moveit.Prelude.{
  [], ◌∷◌, Str, codes, List, Option, none, some, Bool, true, false, Dict, lookup,
}
use intrinsic_moveit.Double.{Double}
use intrinsic_moveit.Parameters.{
  ParameterValue, parameter_double, parameter_bool, parameter_string, parameter_string_array,
  Declaration, declare_parameters, set_parameters, setting_if, as_bool, as_string, as_string_array,
}
use intrinsic_moveit.StatusMonitor.Health.{Settings}
use intrinsic_moveit.Startup.Config.{ServiceConfig, typed, dynamic, ◌>>=◌}

abbrev pub default_joints : List Str
default_joints =
    codes "shoulder_pan_joint"
    ∷ codes "shoulder_lift_joint"
    ∷ codes "elbow_joint"
    ∷ codes "wrist_1_joint"
    ∷ codes "wrist_2_joint"
    ∷ codes "wrist_3_joint"
    ∷ []

module _ {W : Type 0} ⦃d : Double W⦄ where
  unfoldable pub monitor_parameters : List (Declaration W)
  monitor_parameters =
      typed (codes "planning_frame") (parameter_string (codes "world"))
      ∷ typed (codes "robot_base_frame") (parameter_string (codes "base_link"))
      ∷ typed (codes "tool_frame") (parameter_string (codes "hande_tcp"))
      ∷ typed (codes "expect_collision_objects") (parameter_bool true)
      ∷ typed (codes "use_mock_hardware") (parameter_bool false)
      ∷ typed (codes "expected_joints") (parameter_string_array default_joints)
      ∷ dynamic (codes "ros_service_call_timeout_sec") (d.ratio 2 1)
      ∷ dynamic (codes "joint_state_timeout_sec") (d.ratio 3 1)
      ∷ []

  -- The settings as check_health reads them.
  read_settings : Dict (ParameterValue W) → Option (Settings W)
  read_settings parameters = do
    expect ← as_bool (lookup (codes "expect_collision_objects") parameters)
    mock ← as_bool (lookup (codes "use_mock_hardware") parameters)
    planning ← as_string (lookup (codes "planning_frame") parameters)
    base ← as_string (lookup (codes "robot_base_frame") parameters)
    tool ← as_string (lookup (codes "tool_frame") parameters)
    joints ← as_string_array (lookup (codes "expected_joints") parameters)
    some (record {
      ros_service_call_timeout_sec = lookup (codes "ros_service_call_timeout_sec") parameters;
      joint_state_timeout_sec = lookup (codes "joint_state_timeout_sec") parameters;
      expect_collision_objects = expect;
      use_mock_hardware = mock;
      planning_frame = planning;
      robot_base_frame = base;
      tool_frame = tool;
      expected_joints = joints;
    })

  abbrev declared_settings : Option (Dict (ParameterValue W)) → Option (Settings W)
  declared_settings none = none
  declared_settings (some parameters) = read_settings parameters

module _ {W : Type 0} where
  -- The overrides that main puts into the options of the node.
  unfoldable pub option_settings : ServiceConfig W → List (Str × Option (ParameterValue W))
  option_settings config =
      (
        codes "ros_service_call_timeout_sec",
        setting_if parameter_double config.ros_service_call_timeout_sec,
      )
      ∷ (
        codes "expect_collision_objects",
        setting_if parameter_bool config.expect_collision_objects,
      )
      ∷ (codes "use_mock_hardware", setting_if parameter_bool config.use_mock_hardware)
      ∷ []

  -- A configuration that cannot be unpacked has no field. The options go before the command line.
  abbrev pub monitor_overrides :
      Dict (ParameterValue W) → Option (ServiceConfig W) → Dict (ParameterValue W)
  monitor_overrides arguments none = arguments
  monitor_overrides arguments (some config) = set_parameters (option_settings config) arguments

module _ {W : Type 0} ⦃d : Double W⦄ where
  -- `none` is an exception of a declaration or of a getter.
  unfoldable pub monitor_settings :
      Dict (ParameterValue W) → Option (ServiceConfig W) → Option (Settings W)
  unfolding read_settings
  monitor_settings arguments config =
      declared_settings (declare_parameters (monitor_overrides arguments config) monitor_parameters)
