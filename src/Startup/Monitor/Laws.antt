-- ===== src/Startup/Monitor/Laws.antt =====
-- The planning node and the status monitor, started with one service configuration.
use intrinsic_moveit.Startup.Config.Laws.{node_config-IsResolved}
use intrinsic_moveit.Prelude.{
  true, false, sym, ◌∙◌, [], Str, none, some, Dict, lookup, ◌≡◌, refl, Bool, codes, str_eq, Option,
}
use intrinsic_moveit.Double.{Double}
use intrinsic_moveit.Parameters.{
  ParameterValue, declare_parameters, set_parameters, get_double_parameter, parameter_bool, as_bool,
  parameter_double, as_string, as_string_array,
}
use intrinsic_moveit.Parameters.Laws.{
  chosen, Kind, declaration_of, last_setting, lookup-set_parameters, final-chosen, bool_kind,
  final_double, string_kind, string_array_kind,
}
use intrinsic_moveit.Startup.Config.{
  ServiceConfig, typed, dynamic, NodeConfig, node_parameters, node_config,
}
use intrinsic_moveit.Startup.Monitor.{
  default_joints, monitor_parameters, option_settings, monitor_overrides, Settings,
  monitor_settings, read_settings,
}

module _ {W : Type 0} ⦃d : Double W⦄ (arguments : Dict (ParameterValue W))
    (config : ServiceConfig W) (parameters : Dict (ParameterValue W))
    (declared : declare_parameters (monitor_overrides arguments (some config)) monitor_parameters
      ≡ some parameters) where
  monitor_value :
      {A : Type 0} (k : Kind W A) (name : Str) (default : A)
      → declaration_of name monitor_parameters ≡ some (typed name (k.wrap default))
      → k.get (lookup name parameters)
        ≡ some
            (chosen none (k.get (lookup name (monitor_overrides arguments (some config)))) default)
  unfolding set_parameters
  monitor_value k name default h =
      final-chosen (monitor_overrides arguments (some config)) monitor_parameters parameters
        declared [] name k default none h refl

  option_value :
      (name : Str) (v : ParameterValue W)
      → last_setting name (option_settings config) ≡ some v
      → lookup name (monitor_overrides arguments (some config)) ≡ some v
  option_value name v h = rw (lookup-set_parameters (option_settings config) name arguments, h)

  monitor_bool :
      (name : Str) (default b : Bool)
      → declaration_of {W = W} name monitor_parameters ≡ some (typed name (parameter_bool default))
      → last_setting name (option_settings config) ≡ some (parameter_bool b)
      → as_bool (lookup name parameters) ≡ some b
  monitor_bool name default b h l =
      rw (monitor_value bool_kind name default h, option_value name (parameter_bool b) l) refl

  monitor_double :
      (name : Str) (default t : W)
      → declaration_of name monitor_parameters ≡ some (dynamic name default)
      → last_setting name (option_settings config) ≡ some (parameter_double t)
      → get_double_parameter (lookup name parameters) default ≡ t
  unfolding set_parameters get_double_parameter
  monitor_double name default t h l =
      final_double (monitor_overrides arguments (some config)) monitor_parameters parameters
        declared [] name default none h refl
      ∙ rw (option_value name (parameter_double t) l) refl

  module _ (expect mock : Bool) (timeout : W)
      (has_expect : config.expect_collision_objects ≡ some expect)
      (has_mock : config.use_mock_hardware ≡ some mock)
      (has_timeout : config.ros_service_call_timeout_sec ≡ some timeout) where
    pub record IsMonitored (m : Settings W) : Type 0 where
      pub monitor_expect : m.expect_collision_objects ≡ expect
      pub monitor_mock : m.use_mock_hardware ≡ mock
      pub monitor_timeout :
          get_double_parameter m.ros_service_call_timeout_sec (d.ratio 2 1) ≡ timeout

    abbrev given : Str → Option (ParameterValue W)
    given name = lookup name (monitor_overrides arguments (some config))

    abbrev expected_settings : Settings W
    expected_settings = record {
      ros_service_call_timeout_sec = lookup (codes "ros_service_call_timeout_sec") parameters;
      joint_state_timeout_sec = lookup (codes "joint_state_timeout_sec") parameters;
      expect_collision_objects = expect;
      use_mock_hardware = mock;
      planning_frame = chosen none (as_string (given (codes "planning_frame"))) (codes "world");
      robot_base_frame =
          chosen none (as_string (given (codes "robot_base_frame"))) (codes "base_link");
      tool_frame = chosen none (as_string (given (codes "tool_frame"))) (codes "hande_tcp");
      expected_joints =
          chosen none (as_string_array (given (codes "expected_joints"))) default_joints;
    }

    monitor_settings-IsMonitored :
        (m : Settings W) × (monitor_settings arguments (some config) ≡ some m) × IsMonitored m
    unfolding monitor_settings read_settings monitor_parameters option_settings codes str_eq
    monitor_settings-IsMonitored = (
      expected_settings,
      rw
          (
            declared,
            monitor_bool (codes "expect_collision_objects") true expect refl (rw has_expect refl),
            monitor_bool (codes "use_mock_hardware") false mock refl (rw has_mock refl),
            monitor_value string_kind (codes "planning_frame") (codes "world") refl,
            monitor_value string_kind (codes "robot_base_frame") (codes "base_link") refl,
            monitor_value string_kind (codes "tool_frame") (codes "hande_tcp") refl,
            monitor_value string_array_kind (codes "expected_joints") default_joints refl,
          )
          refl,
      record {
        monitor_expect = refl;
        monitor_mock = refl;
        monitor_timeout =
            monitor_double (codes "ros_service_call_timeout_sec") (d.ratio 2 1) timeout refl
              (rw has_timeout refl);
      },
    )

    -- The two programs agree on what both read.
    pub record SameSettings (c : NodeConfig W) (m : Settings W) : Type 0 where
      pub same_expect : m.expect_collision_objects ≡ c.expect_collision_objects
      pub same_mock : m.use_mock_hardware ≡ c.use_mock_hardware
      pub same_timeout :
          get_double_parameter m.ros_service_call_timeout_sec (d.ratio 2 1)
          ≡ c.ros_service_call_timeout_sec

    -- Whatever the command lines of the two programs say, as far as their declarations accept it:
    -- with a service configuration that sets the timeout of service calls and the two flags, both
    -- start, and they agree on all three.
    pub monitor_settings-SameSettings :
        (overrides node_values : Dict (ParameterValue W))
        → declare_parameters overrides node_parameters ≡ some node_values
        → (c : NodeConfig W) × (m : Settings W) × (node_config overrides (some config) ≡ some c)
          × (monitor_settings arguments (some config) ≡ some m)
          × SameSettings c m
    monitor_settings-SameSettings overrides node_values node_declared =
        let (c, e, resolved) =
          node_config-IsResolved overrides (some config) node_values node_declared in
        let (m, f, monitored) = monitor_settings-IsMonitored in
        (
          c,
          m,
          e,
          f,
          record {
            same_expect =
                monitored.monitor_expect
                ∙ sym (resolved.expect_collision_objects ∙ rw has_expect refl);
            same_mock =
                monitored.monitor_mock ∙ sym (resolved.use_mock_hardware ∙ rw has_mock refl);
            same_timeout =
                monitored.monitor_timeout
                ∙ sym (resolved.ros_service_call_timeout_sec ∙ rw has_timeout refl);
          },
        )
