-- ===== src/Startup/Config/Fields.antt =====
-- What each declared parameter of the node holds once the service configuration is set over it.
use intrinsic_moveit.Prelude.{
  [], ◌∷◌, Str, codes, str_eq, List, Option, none, some, true, false, Dict, lookup, ◌≡◌, refl,
}
use intrinsic_moveit.Double.{Double}
use intrinsic_moveit.Parameters.{
  ParameterValue, parameter_double, declare_parameters, set_parameters, setting_if,
  get_double_parameter,
}
use intrinsic_moveit.Parameters.Laws.{
  chosen, Kind, bool_kind, string_kind, string_array_kind, declaration_of, last_setting,
  final-chosen, final_double,
}
use intrinsic_moveit.Startup.Config.{
  ServiceConfig, typed, dynamic, unless_empty, node_parameters, config_settings, settings_of,
}

abbrev pub default_namespaces : List Str
default_namespaces =
    codes "ur_module"
    ∷ codes "gripper"
    ∷ codes "camera_mount"
    ∷ codes "orbbec_camera"
    ∷ codes "ecat_ft_hal_module_with_adapters_with_sim"
    ∷ []

-- A field of the service configuration, if there is one.
abbrev pub asked :
    {W A : Type 0} → (ServiceConfig W → Option A) → Option (ServiceConfig W) → Option A
asked f none = none
asked f (some s) = f s

module _ {W : Type 0} ⦃d : Double W⦄ (overrides : Dict (ParameterValue W))
    (config : Option (ServiceConfig W)) where
  -- The value of a field, or else of an override, or else the default.
  abbrev pub resolved : {A : Type 0} → Kind W A → Str → (ServiceConfig W → Option A) → A → A
  resolved k name field default =
      chosen (asked field config) (k.get (lookup name overrides)) default

  abbrev pub resolved_double : Str → (ServiceConfig W → Option W) → W → W
  resolved_double name field default =
      chosen (asked field config) none (get_double_parameter (lookup name overrides) default)

  module _ (parameters : Dict (ParameterValue W))
      (declared : declare_parameters overrides node_parameters ≡ some parameters) where
    abbrev set : Dict (ParameterValue W)
    set = set_parameters (settings_of config) parameters

    abbrev Reads : {A : Type 0} → Kind W A → Str → (ServiceConfig W → Option A) → A → Type 0
    Reads k name field default = k.get (lookup name set) ≡ some (resolved k name field default)

    abbrev ReadsDouble : Str → (ServiceConfig W → Option W) → W → Type 0
    ReadsDouble name field default =
        get_double_parameter (lookup name set) default ≡ resolved_double name field default

    asked_setting :
        {A : Type 0} (wrap : A → ParameterValue W) (name : Str) (f : ServiceConfig W → Option A)
        → ((s : ServiceConfig W) → last_setting name (config_settings s) ≡ setting_if wrap (f s))
        → (c : Option (ServiceConfig W))
        → last_setting name (settings_of c) ≡ setting_if wrap (asked f c)
    asked_setting wrap name f h none = refl
    asked_setting wrap name f h (some s) = h s

    typed_value :
        {A : Type 0} (k : Kind W A) (name : Str) (default : A) (f : ServiceConfig W → Option A)
        → declaration_of name node_parameters ≡ some (typed name (k.wrap default))
        → ((s : ServiceConfig W) → last_setting name (config_settings s) ≡ setting_if k.wrap (f s))
        → k.get (lookup name set) ≡ some (resolved k name f default)
    typed_value k name default f h l =
        final-chosen overrides node_parameters parameters declared (settings_of config) name k
          default (asked f config) h (asked_setting k.wrap name f l config)

    double_value :
        (name : Str) (default : W) (f : ServiceConfig W → Option W)
        → declaration_of name node_parameters ≡ some (dynamic name default)
        → ((s : ServiceConfig W)
            → last_setting name (config_settings s) ≡ setting_if parameter_double (f s))
        → get_double_parameter (lookup name set) default ≡ resolved_double name f default
    double_value name default f h l =
        final_double overrides node_parameters parameters declared (settings_of config) name default
          (asked f config) h (asked_setting parameter_double name f l config)

    pub read_publish_world_root_tf :
        Reads bool_kind (codes "publish_world_root_tf") (λ s. s.publish_world_root_tf) true
    unfolding node_parameters config_settings codes str_eq
    read_publish_world_root_tf =
        typed_value bool_kind (codes "publish_world_root_tf") true (λ s. s.publish_world_root_tf)
          refl (λ s. refl)

    pub read_publish_robot_base_tf :
        Reads bool_kind (codes "publish_robot_base_tf") (λ s. s.publish_robot_base_tf) true
    unfolding node_parameters config_settings codes str_eq
    read_publish_robot_base_tf =
        typed_value bool_kind (codes "publish_robot_base_tf") true (λ s. s.publish_robot_base_tf)
          refl (λ s. refl)

    pub read_world_tf_prefix :
        Reads string_kind (codes "world_tf_prefix") (λ s. s.world_tf_prefix) (codes "world")
    unfolding node_parameters config_settings codes str_eq
    read_world_tf_prefix =
        typed_value string_kind (codes "world_tf_prefix") (codes "world") (λ s. s.world_tf_prefix)
          refl (λ s. refl)

    pub read_robot_base_frame_id :
        Reads string_kind
          (codes "robot_base_frame_id")
          (λ s. unless_empty s.robot_base_frame_id)
          (codes "ur_module/base_link")
    unfolding node_parameters config_settings codes str_eq
    read_robot_base_frame_id =
        typed_value string_kind (codes "robot_base_frame_id") (codes "ur_module/base_link")
          (λ s. unless_empty s.robot_base_frame_id) refl (λ s. refl)

    pub read_tf_prefix : Reads string_kind (codes "tf_prefix") (λ s. none) (codes "")
    unfolding node_parameters config_settings codes str_eq
    read_tf_prefix =
        typed_value string_kind (codes "tf_prefix") (codes "") (λ s. none) refl (λ s. refl)

    pub read_strip_tf_prefixes :
        Reads string_array_kind
          (codes "strip_tf_prefixes")
          (λ s. unless_empty s.strip_tf_prefix)
          (codes "" ∷ [])
    unfolding node_parameters config_settings codes str_eq
    read_strip_tf_prefixes =
        typed_value string_array_kind (codes "strip_tf_prefixes") (codes "" ∷ [])
          (λ s. unless_empty s.strip_tf_prefix) refl (λ s. refl)

    pub read_excluded_collision_namespaces :
        Reads string_array_kind
          (codes "excluded_collision_namespaces")
          (λ s. unless_empty s.excluded_collision_namespaces)
          default_namespaces
    unfolding node_parameters config_settings codes str_eq
    read_excluded_collision_namespaces =
        typed_value string_array_kind (codes "excluded_collision_namespaces") default_namespaces
          (λ s. unless_empty s.excluded_collision_namespaces) refl (λ s. refl)

    pub read_use_mock_hardware :
        Reads bool_kind (codes "use_mock_hardware") (λ s. s.use_mock_hardware) false
    unfolding node_parameters config_settings codes str_eq
    read_use_mock_hardware =
        typed_value bool_kind (codes "use_mock_hardware") false (λ s. s.use_mock_hardware) refl
          (λ s. refl)

    pub read_intrinsic_core_ingress_address :
        Reads string_kind
          (codes "intrinsic_core_ingress_address")
          (λ s. unless_empty s.intrinsic_core_ingress_address)
          (codes "localhost:17080")
    unfolding node_parameters config_settings codes str_eq
    read_intrinsic_core_ingress_address =
        typed_value string_kind (codes "intrinsic_core_ingress_address") (codes "localhost:17080")
          (λ s. unless_empty s.intrinsic_core_ingress_address) refl (λ s. refl)

    pub read_zenoh_router_address :
        Reads string_kind
          (codes "zenoh_router_address")
          (λ s. unless_empty s.zenoh_router_address)
          (codes "tcp/localhost:7447")
    unfolding node_parameters config_settings codes str_eq
    read_zenoh_router_address =
        typed_value string_kind (codes "zenoh_router_address") (codes "tcp/localhost:7447")
          (λ s. unless_empty s.zenoh_router_address) refl (λ s. refl)

    pub read_expect_collision_objects :
        Reads bool_kind (codes "expect_collision_objects") (λ s. s.expect_collision_objects) true
    unfolding node_parameters config_settings codes str_eq
    read_expect_collision_objects =
        typed_value bool_kind (codes "expect_collision_objects") true
          (λ s. s.expect_collision_objects) refl (λ s. refl)

    pub read_collision_objects_update_rate_hz :
        ReadsDouble
          (codes "collision_objects_update_rate_hz")
          (λ s. s.collision_objects_update_rate_hz)
          (d.ratio 10 1)
    unfolding node_parameters config_settings codes str_eq
    read_collision_objects_update_rate_hz =
        double_value (codes "collision_objects_update_rate_hz") (d.ratio 10 1)
          (λ s. s.collision_objects_update_rate_hz) refl (λ s. refl)

    pub read_collision_objects_min_position_delta :
        ReadsDouble
          (codes "collision_objects_min_position_delta")
          (λ s. s.collision_objects_min_position_delta)
          (d.ratio 1 1000)
    unfolding node_parameters config_settings codes str_eq
    read_collision_objects_min_position_delta =
        double_value (codes "collision_objects_min_position_delta") (d.ratio 1 1000)
          (λ s. s.collision_objects_min_position_delta) refl (λ s. refl)

    pub read_collision_objects_min_rotation_delta :
        ReadsDouble
          (codes "collision_objects_min_rotation_delta")
          (λ s. s.collision_objects_min_rotation_delta)
          (d.ratio 1 100)
    unfolding node_parameters config_settings codes str_eq
    read_collision_objects_min_rotation_delta =
        double_value (codes "collision_objects_min_rotation_delta") (d.ratio 1 100)
          (λ s. s.collision_objects_min_rotation_delta) refl (λ s. refl)

    pub read_world_sync_interval_sec :
        ReadsDouble (codes "world_sync_interval_sec") (λ s. s.world_sync_interval_sec) (d.ratio 2 1)
    unfolding node_parameters config_settings codes str_eq
    read_world_sync_interval_sec =
        double_value (codes "world_sync_interval_sec") (d.ratio 2 1)
          (λ s. s.world_sync_interval_sec) refl (λ s. refl)

    pub read_ros_service_call_timeout_sec :
        ReadsDouble
          (codes "ros_service_call_timeout_sec")
          (λ s. s.ros_service_call_timeout_sec)
          (d.ratio 5 1)
    unfolding node_parameters config_settings codes str_eq
    read_ros_service_call_timeout_sec =
        double_value (codes "ros_service_call_timeout_sec") (d.ratio 5 1)
          (λ s. s.ros_service_call_timeout_sec) refl (λ s. refl)

    pub read_add_collision_retry_interval_sec :
        ReadsDouble
          (codes "add_collision_retry_interval_sec")
          (λ s. s.add_collision_retry_interval_sec)
          (d.ratio 2 1)
    unfolding node_parameters config_settings codes str_eq
    read_add_collision_retry_interval_sec =
        double_value (codes "add_collision_retry_interval_sec") (d.ratio 2 1)
          (λ s. s.add_collision_retry_interval_sec) refl (λ s. refl)
