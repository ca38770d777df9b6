-- ===== src/Startup/Node/Laws.antt =====
-- What the callbacks of the node have done by the time that they plan, and when they fail to.
use intrinsic_moveit.Prelude.{
  ℕ, ℤ, Str, contains, All, codes, str_eq, length, List, Option, none, some, Bool, Dict, lookup,
  StatusOr, ok, err, ◌≡◌, refl, sym, ◌∙◌,
}
use intrinsic_moveit.Double.{Double, Cmath}
use intrinsic_moveit.Messages.{PlanGraspsGoal}
use intrinsic_moveit.Parameters.{
  ParameterValue, parameter_integer, declare_parameters, set_parameters, get_double_parameter,
}
use intrinsic_moveit.Parameters.Laws.{lookup-set_parameters, lookup-declared, last_setting}
use intrinsic_moveit.SceneSync.World.{CollisionObject, WorldClient, ShapeMesh}
use intrinsic_moveit.SceneSync.Data.{Config, Data, tracked_count}
use intrinsic_moveit.SceneSync.Data.{initial}
use intrinsic_moveit.SceneSync.Invariant.{IsTracked}
use intrinsic_moveit.SceneSync.Publish.Laws.{IsCovering}
use intrinsic_moveit.SceneSync.Scene.{Scene, no_objects, after_messages, scene_after}
use intrinsic_moveit.SceneSync.Run.{Call, run}
use intrinsic_moveit.SceneSync.Fetch.{fetch_and_synchronize_collision_objects}
use intrinsic_moveit.PlanningNode.Action.{Pipeline, ActionRun, execute_plan_grasps_action}
use intrinsic_moveit.Startup.Config.{
  ServiceConfig, NodeConfig, dynamic, node_parameters, config_settings, settings_of, node_config,
}
use intrinsic_moveit.Startup.Config.Fields.{asked}
use intrinsic_moveit.Startup.Config.Laws.{node_config-IsResolved}
use intrinsic_moveit.Startup.Node.{Served, handle_plan_grasps_accepted, accepted_timeout}

module _ {W : Type 0} ⦃d : Double W⦄ where
  no_setting :
      (config : Option (ServiceConfig W))
      → asked (λ (s : ServiceConfig W). s.ros_service_call_timeout_sec) config ≡ none
      → last_setting (codes "ros_service_call_timeout_sec") (settings_of config) ≡ none
  unfolding config_settings codes str_eq
  no_setting none unset = refl
  no_setting (some s) unset = rw unset refl

  declared_integer :
      (overrides parameters : Dict (ParameterValue W)) (n : ℤ)
      → declare_parameters overrides node_parameters ≡ some parameters
      → lookup (codes "ros_service_call_timeout_sec") overrides ≡ some (parameter_integer n)
      → lookup (codes "ros_service_call_timeout_sec") parameters ≡ some (parameter_integer n)
  unfolding node_parameters codes str_eq
  declared_integer overrides parameters n declared given =
      let (v, dv, lv) =
        lookup-declared overrides node_parameters (codes "ros_service_call_timeout_sec")
          (dynamic (codes "ros_service_call_timeout_sec") (d.ratio 5 1)) parameters refl declared in
      lv ∙ sym dv ∙ rw given refl

  -- If the command line gives the timeout of service calls as an integer, which its declaration
  -- allows, and the service configuration does not set it, then the node starts and reads it as that
  -- number of seconds, but the callback of every accepted goal throws where it reads it.
  pub accepted_timeout-throws :
      (config : Option (ServiceConfig W)) (overrides parameters : Dict (ParameterValue W)) (n : ℤ)
      → declare_parameters overrides node_parameters ≡ some parameters
      → asked (λ (s : ServiceConfig W). s.ros_service_call_timeout_sec) config ≡ none
      → lookup (codes "ros_service_call_timeout_sec") overrides ≡ some (parameter_integer n)
      → (c : NodeConfig W) × (node_config overrides config ≡ some c)
        × (c.ros_service_call_timeout_sec ≡ d.of_int n)
        × (accepted_timeout (
              lookup
                (codes "ros_service_call_timeout_sec")
                (set_parameters (settings_of config) parameters))
            ≡ none)
  unfolding accepted_timeout get_double_parameter
  accepted_timeout-throws config overrides parameters n declared unset given =
      let (c, e, resolved) = node_config-IsResolved overrides config parameters declared in
      (
        c,
        e,
        resolved.ros_service_call_timeout_sec ∙ rw (unset, given) refl,
        rw
            (
              lookup-set_parameters (settings_of config) (codes "ros_service_call_timeout_sec")
                  parameters,
              no_setting config unset,
              declared_integer overrides parameters n declared given,
            )
            refl,
      )

-- A goal that is accepted after some calls of the synchronizer, of which MoveIt took every message.
module _ {W : Type 0} ⦃d : Double W⦄ ⦃m : Cmath W⦄ (world : WorldClient W)
    (create_mesh : List ℕ → Option (ShapeMesh W)) (seconds : ℤ → W) (config : Config W)
    (pipeline : Pipeline W) (canceling : ℕ → Bool) (goal : PlanGraspsGoal W)
    (calls : List (Call W)) where
  abbrev before : Data W
  before = run world create_mesh seconds config initial calls

  abbrev scene : Scene
  scene = scene_after world create_mesh seconds config initial no_objects calls

  abbrev served : Served W (ActionRun W)
  served =
      handle_plan_grasps_accepted world create_mesh config pipeline canceling (some before) goal

  abbrev fetched : Data W × StatusOr (Unit {0})
  fetched = fetch_and_synchronize_collision_objects world config before none

  -- What a fetch of all objects leaves to be published, and what the scene holds then.
  abbrev count_after : Data W × StatusOr (Unit {0}) → ℕ
  count_after (s, ok u) = tracked_count s
  count_after (s, err e) = 0

  abbrev held_after : Data W × StatusOr (Unit {0}) → Scene
  held_after (s, ok u) = λ id. contains id s.collision_tf_frame_to_mesh_ids
  held_after (s, err e) = scene

  pub record IsSynchronized : Type 0 where
    pub refreshed : served.synchronizer ≡ some fetched.0
    pub tracked : IsTracked fetched.0
    pub all_published : length served.published ≡ count_after fetched
    pub covering : All (IsCovering create_mesh fetched.0) served.published
    pub held : (id : Str) → after_messages scene served.published id ≡ held_after fetched id
    pub answered : served.answer ≡ execute_plan_grasps_action pipeline canceling goal

  record IsPublished (r : Data W × StatusOr (Unit {0}))
      (q : Data W × List (CollisionObject W) × StatusOr (Unit {0})) : Type 0 where
    same : q.0 ≡ r.0
    count : length q.1 ≡ count_after r
    covers : All (IsCovering create_mesh r.0) q.1
    holds : (id : Str) → after_messages scene q.1 id ≡ held_after r id
