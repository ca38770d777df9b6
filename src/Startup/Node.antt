-- ===== src/Startup/Node.antt =====
-- moveit_planning_service/src/moveit_planning_node.cpp, main: what starts with a configuration, and
-- the callbacks that it installs, which synchronize the scene before they serve a request.
pub mod Laws
use intrinsic_moveit.Prelude.{
  [], ◌∷◌, ℕ, ℤ, Str, codes, text_or_default, List, ◌++◌, Option, none, some, Bool, true, false,
  if◌then◌else◌, StatusOr,
}
use intrinsic_moveit.Double.{Double, milliseconds}
use intrinsic_moveit.Messages.{PlanGraspsGoal}
use intrinsic_moveit.Parameters.{ParameterValue, parameter_double}
use intrinsic_moveit.StaticTransforms.{publish_static_transforms}
use intrinsic_moveit.SceneSync.World.{CollisionObject, TransformStamped, WorldClient, ShapeMesh}
use intrinsic_moveit.SceneSync.Data.{Config, Data}
use intrinsic_moveit.SceneSync.Run.{fetch_and_synchronize}
use intrinsic_moveit.PlanningNode.SceneWait.{Waiting}
use intrinsic_moveit.PlanningNode.Action.{Pipeline, ActionRun, execute_plan_grasps_action}
use intrinsic_moveit.PlanningNode.Requests.{MotionPlanResponse, handle_motion_plan_request}
use intrinsic_moveit.Startup.Config.{ServiceConfig, NodeConfig}

-- What main has set up when it spins.
pub record StartUp (W : Type 0) : Type 0 where
  -- The messages of the static broadcaster, if there is one.
  pub broadcast : Option (List (List (TransformStamped W)))
  -- The configuration of the scene synchronizer, if there is one.
  pub synchronizer : Option (Config W)
  -- The values of ZENOH_CONFIG_OVERRIDE, one after the other.
  pub zenoh_overrides : List Str
  pub waiting : Waiting

unfoldable pub zenoh_override : Str → Str
zenoh_override router = codes "connect/endpoints=[" ++ (34 ∷ (router ++ (34 ∷ codes "]")))

abbrev pub router_address : {W : Type 0} → Option (ServiceConfig W) → Str
router_address none = codes "tcp/localhost:7447"
router_address (some config) =
    text_or_default config.zenoh_router_address (codes "tcp/localhost:7447")

abbrev pub is_there : {A : Type 0} → Option A → Bool
is_there none = false
is_there (some a) = true

module _ {W : Type 0} ⦃d : Double W⦄ (connects : Str → Bool) where
  -- Without the platform the node goes on offline. `connects` is what connect() to an ingress says.
  unfoldable pub synchronizer_of : NodeConfig W → Option (Config W)
  synchronizer_of c =
      if c.use_mock_hardware
      then none
      else if connects c.ingress_addr
      then some c.sync_config
      else none

  unfoldable pub start_up : Option (ServiceConfig W) → NodeConfig W → StartUp W
  start_up config c = record {
    broadcast = if c.use_mock_hardware then none else publish_static_transforms true c.tf_config;
    synchronizer = synchronizer_of c;
    zenoh_overrides =
        zenoh_override (router_address config)
        ∷ (if c.use_mock_hardware then [] else zenoh_override c.zenoh_router ∷ []);
    waiting = record {
      expect_collision_objects = c.expect_collision_objects;
      use_mock_hardware = c.use_mock_hardware;
      has_synchronizer = is_there (synchronizer_of c);
    };
  }

module _ {W : Type 0} ⦃d : Double W⦄ where
  -- The timeout that the callback of accepted goals reads by get_parameter(name, timeout_sec), which
  -- leaves 5.0 if the parameter is not there, and throws (`none`) if it is not a double.
  unfoldable pub accepted_timeout : Option (ParameterValue W) → Option ℤ
  accepted_timeout none = some (milliseconds (d.ratio 5 1))
  accepted_timeout (some (parameter_double x)) = some (milliseconds x)
  accepted_timeout (some _) = none

-- A request that was served: the synchronizer after it, what was published for it, and the answer.
pub record Served (W A : Type 0) : Type 0 where
  pub synchronizer : Option (Data W)
  pub published : List (CollisionObject W)
  pub answer : A

module _ {W : Type 0} ⦃d : Double W⦄ (world : WorldClient W)
    (create_mesh : List ℕ → Option (ShapeMesh W)) (config : Config W) where
  -- fetchAndSynchronizeCollisionObjects(std::nullopt), if there is a synchronizer; a failure is only
  -- logged. What is published is not waited for: the answer is made without it.
  abbrev pub serve_with :
      {A : Type 0} → Data W × List (CollisionObject W) × StatusOr (Unit {0}) → A → Served W A
  serve_with (s, published, status) answer = record {
    synchronizer = some s;
    published = published;
    answer = answer;
  }

  unfoldable pub synchronize_first : {A : Type 0} → Option (Data W) → A → Served W A
  synchronize_first none answer = record { synchronizer = none; published = []; answer = answer }
  synchronize_first (some s) answer =
      serve_with (fetch_and_synchronize world create_mesh config s none) answer

  unfoldable pub handle_plan_grasps_accepted :
      Pipeline W → (ℕ → Bool) → Option (Data W) → PlanGraspsGoal W → Served W (ActionRun W)
  unfolding synchronize_first
  handle_plan_grasps_accepted pipeline canceling s goal =
      synchronize_first s (execute_plan_grasps_action pipeline canceling goal)

  unfoldable pub get_motion_plan :
      Bool → Option (Data W) → Str → MotionPlanResponse W → Served W (MotionPlanResponse W)
  unfolding synchronize_first
  get_motion_plan scene_ready s group_name response =
      synchronize_first s (handle_motion_plan_request scene_ready group_name response)
