-- ===== src/Startup/Config.antt =====
-- moveit_planning_service/src/moveit_planning_node.cpp, main: the parameters that the node declares,
-- the service configuration that is set over them, and the configurations that are read from them.
pub mod Fields
pub mod Laws
use intrinsic_moveit.Prelude.{
  [], ◌∷◌, Str, codes, is_empty, text_or_default, List, Option, none, some, Bool, true, false, Dict,
  lookup, if◌then◌else◌,
}
use intrinsic_moveit.Double.{Double}
use intrinsic_moveit.Parameters.{
  ParameterValue, parameter_double, parameter_bool, parameter_string, parameter_string_array,
  Declaration, declare_parameters, set_parameters, as_bool, as_string, as_string_array,
  get_double_parameter, setting_if,
}
use intrinsic_moveit.StaticTransforms.{StaticTransformsConfig}
use intrinsic_moveit.SceneSync.Data.{Config}

-- MoveItPlanningServiceConfig of moveit_planning_service.proto.
pub record ServiceConfig (W : Type 0) : Type 0 where
  pub intrinsic_core_ingress_address : Str
  pub zenoh_router_address : Str
  pub world_tf_prefix : Option Str
  pub strip_tf_prefix : List Str
  pub excluded_collision_namespaces : List Str
  pub robot_base_frame_id : Str
  pub publish_world_root_tf : Option Bool
  pub publish_robot_base_tf : Option Bool
  pub collision_objects_update_rate_hz : Option W
  pub collision_objects_min_position_delta : Option W
  pub collision_objects_min_rotation_delta : Option W
  pub ros_service_call_timeout_sec : Option W
  pub add_collision_retry_interval_sec : Option W
  pub expect_collision_objects : Option Bool
  pub use_mock_hardware : Option Bool
  pub world_sync_interval_sec : Option W

-- What main and its threads read from the node's parameters.
pub record NodeConfig (W : Type 0) : Type 0 where
  pub tf_config : StaticTransformsConfig
  pub sync_config : Config W
  pub use_mock_hardware : Bool
  pub expect_collision_objects : Bool
  pub ingress_addr : Str
  pub zenoh_router : Str
  pub ros_service_call_timeout_sec : W
  pub add_collision_retry_interval_sec : W

-- A list or a string that is not empty.
abbrev pub unless_empty : {A : Type 0} → List A → Option (List A)
unless_empty [] = none
unless_empty (x ∷ xs) = some (x ∷ xs)

infixl 5 ◌>>=◌
abbrev pub ◌>>=◌ : {A B : Type 0} → Option A → (A → Option B) → Option B
none >>= f = none
some a >>= f = f a

module _ {W : Type 0} where
  abbrev pub typed : Str → ParameterValue W → Declaration W
  typed name default = record { name = name; default_value = default; dynamic_typing = false }

  abbrev pub dynamic : Str → W → Declaration W
  dynamic name default = record {
    name = name;
    default_value = parameter_double default;
    dynamic_typing = true;
  }

module _ {W : Type 0} ⦃d : Double W⦄ where
  -- In the order of the declarations.
  unfoldable pub node_parameters : List (Declaration W)
  node_parameters =
      typed (codes "intrinsic_core_ingress_address") (parameter_string (codes "localhost:17080"))
      ∷ typed (codes "zenoh_router_address") (parameter_string (codes "tcp/localhost:7447"))
      ∷ dynamic (codes "ros_service_call_timeout_sec") (d.ratio 5 1)
      ∷ dynamic (codes "add_collision_retry_interval_sec") (d.ratio 2 1)
      ∷ typed (codes "expect_collision_objects") (parameter_bool true)
      ∷ typed (codes "use_mock_hardware") (parameter_bool false)
      ∷ typed (codes "publish_world_root_tf") (parameter_bool true)
      ∷ typed (codes "publish_robot_base_tf") (parameter_bool true)
      ∷ typed (codes "world_tf_prefix") (parameter_string (codes "world"))
      ∷ typed (codes "robot_base_frame_id") (parameter_string (codes "ur_module/base_link"))
      ∷ typed (codes "tf_prefix") (parameter_string (codes ""))
      ∷ typed (codes "strip_tf_prefixes") (parameter_string_array (codes "" ∷ []))
      ∷ typed (codes "excluded_collision_namespaces") (
          parameter_string_array (
            codes "ur_module"
            ∷ codes "gripper"
            ∷ codes "camera_mount"
            ∷ codes "orbbec_camera"
            ∷ codes "ecat_ft_hal_module_with_adapters_with_sim"
            ∷ []))
      ∷ typed (codes "override_joint_names") (
          parameter_string_array (
            codes "shoulder_pan_joint"
            ∷ codes "shoulder_lift_joint"
            ∷ codes "elbow_joint"
            ∷ codes "wrist_1_joint"
            ∷ codes "wrist_2_joint"
            ∷ codes "wrist_3_joint"
            ∷ []))
      ∷ dynamic (codes "collision_objects_update_rate_hz") (d.ratio 10 1)
      ∷ dynamic (codes "collision_objects_min_position_delta") (d.ratio 1 1000)
      ∷ dynamic (codes "collision_objects_min_rotation_delta") (d.ratio 1 100)
      ∷ dynamic (codes "world_sync_interval_sec") (d.ratio 2 1)
      ∷ []

  -- The settings of the service configuration, in their order: a string or a list is there if it is
  -- not empty.
  unfoldable pub config_settings : ServiceConfig W → List (Str × Option (ParameterValue W))
  config_settings config =
      (
        codes "intrinsic_core_ingress_address",
        setting_if parameter_string (unless_empty config.intrinsic_core_ingress_address),
      )
      ∷ (
        codes "zenoh_router_address",
        setting_if parameter_string (unless_empty config.zenoh_router_address),
      )
      ∷ (
        codes "ros_service_call_timeout_sec",
        setting_if parameter_double config.ros_service_call_timeout_sec,
      )
      ∷ (
        codes "add_collision_retry_interval_sec",
        setting_if parameter_double config.add_collision_retry_interval_sec,
      )
      ∷ (
        codes "expect_collision_objects",
        setting_if parameter_bool config.expect_collision_objects,
      )
      ∷ (codes "use_mock_hardware", setting_if parameter_bool config.use_mock_hardware)
      ∷ (codes "publish_world_root_tf", setting_if parameter_bool config.publish_world_root_tf)
      ∷ (codes "publish_robot_base_tf", setting_if parameter_bool config.publish_robot_base_tf)
      ∷ (codes "world_tf_prefix", setting_if parameter_string config.world_tf_prefix)
      ∷ (
        codes "robot_base_frame_id",
        setting_if parameter_string (unless_empty config.robot_base_frame_id),
      )
      ∷ (
        codes "strip_tf_prefixes",
        setting_if parameter_string_array (unless_empty config.strip_tf_prefix),
      )
      ∷ (
        codes "excluded_collision_namespaces",
        setting_if parameter_string_array (unless_empty config.excluded_collision_namespaces),
      )
      ∷ (
        codes "collision_objects_update_rate_hz",
        setting_if parameter_double config.collision_objects_update_rate_hz,
      )
      ∷ (
        codes "collision_objects_min_position_delta",
        setting_if parameter_double config.collision_objects_min_position_delta,
      )
      ∷ (
        codes "collision_objects_min_rotation_delta",
        setting_if parameter_double config.collision_objects_min_rotation_delta,
      )
      ∷ (
        codes "world_sync_interval_sec",
        setting_if parameter_double config.world_sync_interval_sec,
      )
      ∷ []

  -- `none` is a configuration that cannot be unpacked.
  abbrev pub settings_of : Option (ServiceConfig W) → List (Str × Option (ParameterValue W))
  settings_of none = []
  settings_of (some config) = config_settings config

  -- The reads; `none` is the exception of a getter.
  unfoldable pub read_config : Dict (ParameterValue W) → Option (NodeConfig W)
  read_config parameters = do
    root ← as_bool (lookup (codes "publish_world_root_tf") parameters)
    base ← as_bool (lookup (codes "publish_robot_base_tf") parameters)
    world ← as_string (lookup (codes "world_tf_prefix") parameters)
    frame ← as_string (lookup (codes "robot_base_frame_id") parameters)
    prefix ← as_string (lookup (codes "tf_prefix") parameters)
    strip ← as_string_array (lookup (codes "strip_tf_prefixes") parameters)
    excluded ← as_string_array (lookup (codes "excluded_collision_namespaces") parameters)
    mock ← as_bool (lookup (codes "use_mock_hardware") parameters)
    ingress ← as_string (lookup (codes "intrinsic_core_ingress_address") parameters)
    zenoh ← as_string (lookup (codes "zenoh_router_address") parameters)
    expect ← as_bool (lookup (codes "expect_collision_objects") parameters)
    let number = λ (name : Str) (default : W). get_double_parameter (lookup name parameters) default
    some (record {
      tf_config = record {
        publish_world_root_tf = root;
        publish_robot_base_tf = base;
        world_frame = text_or_default world (codes "world");
        robot_base_frame = frame;
      };
      sync_config = record {
        tf_prefix = prefix;
        strip_tf_prefixes = strip;
        excluded_collision_namespaces = excluded;
        collision_objects_update_rate_hz =
            number (codes "collision_objects_update_rate_hz") (d.ratio 10 1);
        collision_objects_min_position_delta =
            number (codes "collision_objects_min_position_delta") (d.ratio 1 1000);
        collision_objects_min_rotation_delta =
            number (codes "collision_objects_min_rotation_delta") (d.ratio 1 100);
        world_sync_interval_sec = number (codes "world_sync_interval_sec") (d.ratio 2 1);
      };
      use_mock_hardware = mock;
      expect_collision_objects = expect;
      ingress_addr = text_or_default ingress (codes "localhost:17080");
      zenoh_router = text_or_default zenoh (codes "tcp/localhost:7447");
      ros_service_call_timeout_sec = number (codes "ros_service_call_timeout_sec") (d.ratio 5 1);
      add_collision_retry_interval_sec =
          number (codes "add_collision_retry_interval_sec") (d.ratio 2 1);
    })

  -- From the overrides of the command line and the service configuration; `none` is an exception of
  -- a declaration or of a getter.
  configured : Option (ServiceConfig W) → Option (Dict (ParameterValue W)) → Option (NodeConfig W)
  configured config none = none
  configured config (some parameters) = read_config (set_parameters (settings_of config) parameters)

  unfoldable pub node_config :
      Dict (ParameterValue W) → Option (ServiceConfig W) → Option (NodeConfig W)
  unfolding configured
  node_config overrides config = configured config (declare_parameters overrides node_parameters)
