-- ===== src/StatusMonitor/Service/Tests.antt =====
-- The theorems on health checks and the service at a concrete stack.
use intrinsic_moveit.Prelude.{
  ℕ, ◌-◌, ◌*◌, ℤ, pos, Str, codes, str_eq, mem_str, List, [], ◌∷◌, none, some, Bool, true, false,
  ◌≡◌, ◌≢◌, ◌↔◌, ◌⊎◌, refl, arith, ok_status,
}
use intrinsic_moveit.Double.{milli_double}
use intrinsic_moveit.Parameters.{get_double_parameter, parameter_integer}
use intrinsic_moveit.StatusMonitor.Health.{
  Settings, JointCache, Surroundings, replied, check_health,
}
use intrinsic_moveit.StatusMonitor.Health.Spec.{IsHealthy}
use intrinsic_moveit.StatusMonitor.Health.Laws.{check_health-healthy}
use intrinsic_moveit.StatusMonitor.Health.Reports.{
  IsAllClear, IsExplained, check_health-IsExplained,
}
use intrinsic_moveit.StatusMonitor.Service.{
  Client, Bridge, trigger_replied, get_state, enable, state_disabled, state_enabled, state_error,
  Call, enables, disables, gets_state, run,
}
use intrinsic_moveit.StatusMonitor.Service.Laws.{
  last_switch, IsSynchronizing, get_state-disabled, get_state-enabled, enable-ok,
}

abbrev settings : Settings ℤ
settings = record {
  ros_service_call_timeout_sec = some (parameter_integer (pos 2));
  joint_state_timeout_sec = none;
  expect_collision_objects = true;
  use_mock_hardware = false;
  planning_frame = codes "world";
  robot_base_frame = codes "base_link";
  tool_frame = codes "hande_tcp";
  expected_joints = codes "elbow_joint" ∷ [];
}

abbrev cache : JointCache
cache = record { last_joint_state_time = 9000; received_joint_names = codes "elbow_joint" ∷ [] }

-- Times in milliseconds; the doubles are thousandths.
abbrev stack : Surroundings ℤ
stack = record {
  scene_service_up = λ t. true;
  scene_reply = λ t. replied 3 6;
  motion_plan_ready = true;
  grasp_plan_ready = true;
  now = 10000;
  seconds_since = λ since now. pos (now - since);
  transform_error = λ from to. none;
  one_decimal = λ x. codes "?";
}

abbrev client : Client ℤ
client = record { is_disabled = false; settings = settings; cache = cache }

abbrev bridge : Bridge
bridge = record { service_up = λ t. true; reply = λ t. trigger_replied true [] }

stack_healthy : (check_health settings cache stack).healthy ≡ true
unfolding check_health mem_str str_eq codes get_double_parameter
stack_healthy = refl

check_health-healthy_example :
    ((check_health settings cache stack).healthy ≡ true) ↔ IsHealthy settings cache stack
check_health-healthy_example = check_health-healthy settings cache stack

check_health-IsExplained_example :
    IsAllClear (check_health settings cache stack) ⊎ IsExplained (check_health settings cache stack)
check_health-IsExplained_example = check_health-IsExplained settings cache stack

abbrev calls : List (Call ℤ)
calls = disables ∷ gets_state stack ∷ enables bridge cache stack ∷ disables ∷ []

get_state-disabled_example :
    ((get_state (run client calls) stack).state_code ≡ state_disabled)
    ↔ (last_switch false calls ≡ true)
get_state-disabled_example = get_state-disabled client calls stack refl

get_state-enabled_example :
    (((get_state client stack).state_code ≡ state_enabled) ↔ IsHealthy settings cache stack)
    × (¬ IsHealthy settings cache stack
        → ((get_state client stack).state_code ≡ state_error)
          × (t : Str × Str × Str) × ((get_state client stack).extended_status ≡ some t)
          × (intrinsic_moveit.Prelude.is_empty t.0 ≡ false))
get_state-enabled_example = get_state-enabled client stack refl

enable-ok_example :
    ((enable client bridge cache stack).0.is_disabled ≡ false)
    × (((enable client bridge cache stack).1 ≡ ok_status)
        ↔ (((false ≡ true) ⊎ IsSynchronizing bridge (pos 5000)) × IsHealthy settings cache stack))
enable-ok_example = enable-ok client bridge cache stack
