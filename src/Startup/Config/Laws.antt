-- ===== src/Startup/Config/Laws.antt =====
-- The configurations of the node, from the service configuration, the overrides and the defaults.
use intrinsic_moveit.Prelude.{
  [], ◌∷◌, codes, text_or_default, Option, none, some, true, false, Dict, ◌≡◌, refl,
}
use intrinsic_moveit.Double.{Double}
use intrinsic_moveit.Parameters.{ParameterValue, declare_parameters}
use intrinsic_moveit.Parameters.Laws.{bool_kind, string_kind, string_array_kind}
use intrinsic_moveit.Startup.Config.{
  ServiceConfig, NodeConfig, unless_empty, node_parameters, read_config, configured, node_config,
}
use intrinsic_moveit.Startup.Config.Fields.{
  default_namespaces, resolved, resolved_double, read_publish_world_root_tf,
  read_publish_robot_base_tf, read_world_tf_prefix, read_robot_base_frame_id, read_tf_prefix,
  read_strip_tf_prefixes, read_excluded_collision_namespaces, read_use_mock_hardware,
  read_intrinsic_core_ingress_address, read_zenoh_router_address, read_expect_collision_objects,
  read_collision_objects_update_rate_hz, read_collision_objects_min_position_delta,
  read_collision_objects_min_rotation_delta, read_world_sync_interval_sec,
  read_ros_service_call_timeout_sec, read_add_collision_retry_interval_sec,
}

module _ {W : Type 0} ⦃d : Double W⦄ (overrides : Dict (ParameterValue W))
    (config : Option (ServiceConfig W)) where
  -- Each value is the service configuration's, or else the override's, or else the default. An empty
  -- string or list of the configuration does not count, except for world_tf_prefix, which counts
  -- once it is set; tf_prefix has no field there. An override of a double may be an integer.
  pub record IsResolved (c : NodeConfig W) : Type 0 where
    pub publish_world_root_tf :
        c.tf_config.publish_world_root_tf
        ≡ resolved overrides config bool_kind
            (codes "publish_world_root_tf")
            (λ s. s.publish_world_root_tf)
            true
    pub publish_robot_base_tf :
        c.tf_config.publish_robot_base_tf
        ≡ resolved overrides config bool_kind
            (codes "publish_robot_base_tf")
            (λ s. s.publish_robot_base_tf)
            true
    pub world_frame :
        c.tf_config.world_frame
        ≡ text_or_default
            (resolved overrides config string_kind
              (codes "world_tf_prefix")
              (λ s. s.world_tf_prefix)
              (codes "world"))
            (codes "world")
    pub robot_base_frame :
        c.tf_config.robot_base_frame
        ≡ resolved overrides config string_kind
            (codes "robot_base_frame_id")
            (λ s. unless_empty s.robot_base_frame_id)
            (codes "ur_module/base_link")
    pub tf_prefix :
        c.sync_config.tf_prefix
        ≡ resolved overrides config string_kind (codes "tf_prefix") (λ s. none) (codes "")
    pub strip_tf_prefixes :
        c.sync_config.strip_tf_prefixes
        ≡ resolved overrides config string_array_kind
            (codes "strip_tf_prefixes")
            (λ s. unless_empty s.strip_tf_prefix)
            (codes "" ∷ [])
    pub excluded_collision_namespaces :
        c.sync_config.excluded_collision_namespaces
        ≡ resolved overrides config string_array_kind
            (codes "excluded_collision_namespaces")
            (λ s. unless_empty s.excluded_collision_namespaces)
            default_namespaces
    pub use_mock_hardware :
        c.use_mock_hardware
        ≡ resolved overrides config bool_kind
            (codes "use_mock_hardware")
            (λ s. s.use_mock_hardware)
            false
    pub ingress_addr :
        c.ingress_addr
        ≡ text_or_default
            (resolved overrides config string_kind
              (codes "intrinsic_core_ingress_address")
              (λ s. unless_empty s.intrinsic_core_ingress_address)
              (codes "localhost:17080"))
            (codes "localhost:17080")
    pub zenoh_router :
        c.zenoh_router
        ≡ text_or_default
            (resolved overrides config string_kind
              (codes "zenoh_router_address")
              (λ s. unless_empty s.zenoh_router_address)
              (codes "tcp/localhost:7447"))
            (codes "tcp/localhost:7447")
    pub expect_collision_objects :
        c.expect_collision_objects
        ≡ resolved overrides config bool_kind
            (codes "expect_collision_objects")
            (λ s. s.expect_collision_objects)
            true
    pub collision_objects_update_rate_hz :
        c.sync_config.collision_objects_update_rate_hz
        ≡ resolved_double overrides config
            (codes "collision_objects_update_rate_hz")
            (λ s. s.collision_objects_update_rate_hz)
            (d.ratio 10 1)
    pub collision_objects_min_position_delta :
        c.sync_config.collision_objects_min_position_delta
        ≡ resolved_double overrides config
            (codes "collision_objects_min_position_delta")
            (λ s. s.collision_objects_min_position_delta)
            (d.ratio 1 1000)
    pub collision_objects_min_rotation_delta :
        c.sync_config.collision_objects_min_rotation_delta
        ≡ resolved_double overrides config
            (codes "collision_objects_min_rotation_delta")
            (λ s. s.collision_objects_min_rotation_delta)
            (d.ratio 1 100)
    pub world_sync_interval_sec :
        c.sync_config.world_sync_interval_sec
        ≡ resolved_double overrides config
            (codes "world_sync_interval_sec")
            (λ s. s.world_sync_interval_sec)
            (d.ratio 2 1)
    pub ros_service_call_timeout_sec :
        c.ros_service_call_timeout_sec
        ≡ resolved_double overrides config
            (codes "ros_service_call_timeout_sec")
            (λ s. s.ros_service_call_timeout_sec)
            (d.ratio 5 1)
    pub add_collision_retry_interval_sec :
        c.add_collision_retry_interval_sec
        ≡ resolved_double overrides config
            (codes "add_collision_retry_interval_sec")
            (λ s. s.add_collision_retry_interval_sec)
            (d.ratio 2 1)

  -- If the declarations accept the overrides, then none of the reads that main makes while it starts
  -- throws (those of the callback of accepted goals are later), and each value read is the service
  -- configuration's, where it has one, or else the override's, or else the default. An empty string
  -- or list of the configuration does not count, except that a world_tf_prefix counts even if it is
  -- set to the empty string; the world frame, the ingress address and the Zenoh router are the
  -- default if the value read is empty. An override of a double may be an integer.
  pub node_config-IsResolved :
      (parameters : Dict (ParameterValue W))
      → declare_parameters overrides node_parameters ≡ some parameters
      → (c : NodeConfig W) × (node_config overrides config ≡ some c) × IsResolved c
  unfolding node_config read_config configured
  node_config-IsResolved parameters declared = (
    _,
    rw
        (
          declared,
          read_publish_world_root_tf overrides config parameters declared,
          read_publish_robot_base_tf overrides config parameters declared,
          read_world_tf_prefix overrides config parameters declared,
          read_robot_base_frame_id overrides config parameters declared,
          read_tf_prefix overrides config parameters declared,
          read_strip_tf_prefixes overrides config parameters declared,
          read_excluded_collision_namespaces overrides config parameters declared,
          read_use_mock_hardware overrides config parameters declared,
          read_intrinsic_core_ingress_address overrides config parameters declared,
          read_zenoh_router_address overrides config parameters declared,
          read_expect_collision_objects overrides config parameters declared,
        )
        refl,
    record {
      publish_world_root_tf = refl;
      publish_robot_base_tf = refl;
      world_frame = refl;
      robot_base_frame = refl;
      tf_prefix = refl;
      strip_tf_prefixes = refl;
      excluded_collision_namespaces = refl;
      use_mock_hardware = refl;
      ingress_addr = refl;
      zenoh_router = refl;
      expect_collision_objects = refl;
      collision_objects_update_rate_hz =
          read_collision_objects_update_rate_hz overrides config parameters declared;
      collision_objects_min_position_delta =
          read_collision_objects_min_position_delta overrides config parameters declared;
      collision_objects_min_rotation_delta =
          read_collision_objects_min_rotation_delta overrides config parameters declared;
      world_sync_interval_sec = read_world_sync_interval_sec overrides config parameters declared;
      ros_service_call_timeout_sec =
          read_ros_service_call_timeout_sec overrides config parameters declared;
      add_collision_retry_interval_sec =
          read_add_collision_retry_interval_sec overrides config parameters declared;
    },
  )
