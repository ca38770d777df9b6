-- ===== src/Startup/Tests.antt =====
-- A node that starts without the platform's configuration, or with one that sets what both programs
-- read; and a goal that is served over a world with one block.
use intrinsic_moveit.PlanningNode.Action.{Pipeline}
use intrinsic_moveit.Prelude.{
  [], ◌∷◌, ℕ, ℤ, pos, pos_part, neg_part, ◌+◌, ◌-ℤ◌, codes, str_eq, insert, lookup, Dict, List,
  Option, none, some, Bool, true, false, ok, ◌≡◌, refl,
}
use intrinsic_moveit.Double.{Cmath, milli_double}
use intrinsic_moveit.Messages.{Vector3, PlanGraspsGoal, failure}
use intrinsic_moveit.Parameters.{
  ParameterValue, parameter_integer, declare_parameters, set_parameters,
}
use intrinsic_moveit.SceneSync.Run.{Call, tf_message, fetch, publish}
use intrinsic_moveit.SceneSync.World.{
  WorldObject, inline_geometry, no_matrix, box_shape, TransformStamped, WorldClient, ShapeMesh,
}
use intrinsic_moveit.SceneSync.Data.{Config}
use intrinsic_moveit.StatusMonitor.Health.{Settings}
use intrinsic_moveit.Startup.Config.{
  ServiceConfig, NodeConfig, node_parameters, node_config, settings_of,
}
use intrinsic_moveit.Startup.Config.Laws.{IsResolved, node_config-IsResolved}
use intrinsic_moveit.Startup.Monitor.{
  option_settings, monitor_parameters, monitor_overrides, monitor_settings,
}
use intrinsic_moveit.Startup.Monitor.Laws.{SameSettings, monitor_settings-SameSettings}
use intrinsic_moveit.Startup.Node.{accepted_timeout}
use intrinsic_moveit.Startup.Node.Laws.{accepted_timeout-throws}

abbrev overrides : Dict (ParameterValue ℤ)
overrides = (codes "ros_service_call_timeout_sec", parameter_integer (pos 4)) ∷ []

abbrev service : ServiceConfig ℤ
service = record {
  intrinsic_core_ingress_address = codes "ingress:80";
  zenoh_router_address = [];
  world_tf_prefix = none;
  strip_tf_prefix = [];
  excluded_collision_namespaces = [];
  robot_base_frame_id = [];
  publish_world_root_tf = some false;
  publish_robot_base_tf = none;
  collision_objects_update_rate_hz = none;
  collision_objects_min_position_delta = none;
  collision_objects_min_rotation_delta = none;
  ros_service_call_timeout_sec = some (pos 7000);
  add_collision_retry_interval_sec = none;
  expect_collision_objects = some false;
  use_mock_hardware = some true;
  world_sync_interval_sec = none;
}

-- The parameters of the node, with this command line.
node_values :
    (p : Dict (ParameterValue ℤ)) × (declare_parameters overrides node_parameters ≡ some p)
unfolding declare_parameters node_parameters lookup codes str_eq
node_values = (_, refl)

monitor_values :
    (p : Dict (ParameterValue ℤ)) × (declare_parameters
        (monitor_overrides [] (some service))
        monitor_parameters
      ≡ some p)
unfolding declare_parameters monitor_parameters option_settings set_parameters insert lookup codes
    str_eq
monitor_values = (_, refl)

node_config-IsResolved_example :
    (c : NodeConfig ℤ) × (node_config overrides (some service) ≡ some c)
    × IsResolved overrides (some service) c
node_config-IsResolved_example =
    node_config-IsResolved overrides (some service) node_values.0 node_values.1

monitor_settings-SameSettings_example :
    (c : NodeConfig ℤ) × (m : Settings ℤ) × (node_config overrides (some service) ≡ some c)
    × (monitor_settings [] (some service) ≡ some m)
    × SameSettings [] service monitor_values.0 monitor_values.1 false true
        (pos 7000)
        refl
        refl
        refl
        c
        m
monitor_settings-SameSettings_example =
    monitor_settings-SameSettings [] service monitor_values.0 monitor_values.1 false true (pos 7000)
      refl refl refl overrides node_values.0 node_values.1

integer_given :
    lookup (codes "ros_service_call_timeout_sec") overrides ≡ some (parameter_integer (pos 4))
unfolding lookup codes str_eq
integer_given = refl

accepted_timeout-throws_example :
    (c : NodeConfig ℤ) × (node_config overrides none ≡ some c)
    × (c.ros_service_call_timeout_sec ≡ pos 4000)
    × (accepted_timeout (
          lookup
            (codes "ros_service_call_timeout_sec")
            (set_parameters (settings_of none) node_values.0))
        ≡ none)
accepted_timeout-throws_example =
    accepted_timeout-throws none overrides node_values.0 (pos 4) node_values.1 refl integer_given

-- A world with one block, a box.
abbrev zero_vector : Vector3 ℤ
zero_vector = record { x = pos 0; y = pos 0; z = pos 0 }

abbrev block : WorldObject ℤ
block = record {
  name = codes "world/block";
  entities =
      record {
        name = codes "base";
        geometry_component = some (
            (
              codes "Intrinsic_Collision",
              (
                codes "shape",
                record {
                  ref_t_shape = no_matrix;
                  geometry = inline_geometry (some (some (box_shape zero_vector) ∷ []));
                },
              )
                  ∷ [],
            )
            ∷ []);
      }
      ∷ [];
}

abbrev world : WorldClient ℤ
world = record { get_objects = λ names. ok (block ∷ []); get_gltf = λ object path. ok [] }

abbrev block_at : TransformStamped ℤ
block_at = record {
  frame_id = codes "root";
  child_frame_id = codes "block/base";
  translation = zero_vector;
  rotation = record { x = pos 0; y = pos 0; z = pos 0; w = pos 1000 };
}

-- The block is seen, fetched and published, and then a goal is accepted.
abbrev calls : List (Call ℤ)
calls = tf_message (pos 0) (block_at ∷ []) ∷ fetch none ∷ publish none ∷ []

-- Stand-ins that are right at 0 and 1.
instance abbrev milli_cmath : Cmath ℤ
milli_cmath = record {
  sqrt = λ x. x;
  abs = λ x. pos (pos_part x + neg_part x);
  acos = λ x. pos 1000 -ℤ x;
}

abbrev seconds : ℤ → ℤ
seconds t = t

abbrev config : Config ℤ
config = record {
  tf_prefix = [];
  strip_tf_prefixes = [];
  excluded_collision_namespaces = [];
  collision_objects_update_rate_hz = pos 10000;
  collision_objects_min_position_delta = pos 1;
  collision_objects_min_rotation_delta = pos 10;
  world_sync_interval_sec = pos 2000;
}

abbrev goal : PlanGraspsGoal ℤ
goal = record {
  group_name = codes "ur_manipulator";
  end_effector_group = [];
  tool_frame = [];
  planning_timeout_sec = pos 15000;
  gripper_motion_duration_sec = pos 500;
  retract_dist_m = pos 50;
  surfaces = [];
  num_rotations = pos 4;
  max_num_grasps = pos 1;
  candidates = [];
}

abbrev failing : Pipeline ℤ
failing _ candidate index = record { ranked_grasps = []; error_code = failure }

abbrev never : ℕ → Bool
never index = false

abbrev no_mesh : List ℕ → Option (ShapeMesh ℤ)
no_mesh bytes = none
