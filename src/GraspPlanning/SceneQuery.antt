-- ===== src/GraspPlanning/SceneQuery.antt =====
-- moveit_planning_service/src/grasp_planning_pipeline.cpp: ResolveCandidateTimeoutSec,
-- GetPlanningSceneObjectIds and GetPlanningSceneCollisionObject, over a client of MoveIt's planning
-- scene service.
pub mod Laws
mod Tests
use intrinsic_moveit.Prelude.{
  ℕ, ℤ, pos, Str, str_eq, find?, length, map, List, [], ◌∷◌, Option, none, some, Bool, true, false,
  ◌&&◌, ◌||◌, ltb, if◌then◌else◌,
}
use intrinsic_moveit.Double.{Double, is_pos}
use intrinsic_moveit.Messages.{PlanGraspsGoal}
use intrinsic_moveit.SceneSync.World.{CollisionObject}

-- The answer to a query of the scene: none in time, an exception, or the collision objects.
pub data SceneAnswer (W : Type 0) : Type 0 where
  query_timeout query_exception : SceneAnswer W
  objects : List (CollisionObject W) → SceneAnswer W

-- What the query asks for: WORLD_OBJECT_NAMES, where the answer's objects carry their IDs, or
-- WORLD_OBJECT_GEOMETRY.
pub data Components : Type 0 where
  world_object_names world_object_geometry : Components

pub record PlanningSceneClient (W : Type 0) : Type 0 where
  pub service_is_ready : Bool
  pub wait_for_service : ℤ → Bool
  pub send_request : Components → ℤ → SceneAnswer W

module _ {W : Type 0} where
  ids_of : SceneAnswer W → List Str
  ids_of query_timeout = []
  ids_of query_exception = []
  ids_of (objects os) = map (λ (o : CollisionObject W). o.id) os

  -- `none` is a pipeline without a client or a node.
  unfoldable pub get_planning_scene_object_ids : Option (PlanningSceneClient W) → ℤ → List Str
  unfolding ids_of
  get_planning_scene_object_ids none timeout = []
  get_planning_scene_object_ids (some client) timeout =
      if client.service_is_ready || client.wait_for_service timeout
      then ids_of (client.send_request world_object_names timeout)
      else []

  find_object : Str → SceneAnswer W → Option (CollisionObject W)
  find_object object_id query_timeout = none
  find_object object_id query_exception = none
  find_object object_id (objects os) = find? (λ (o : CollisionObject W). str_eq o.id object_id) os

  unfoldable pub get_planning_scene_collision_object :
      Option (PlanningSceneClient W) → Str → ℤ → Option (CollisionObject W)
  unfolding find_object
  get_planning_scene_collision_object none object_id timeout = none
  get_planning_scene_collision_object (some client) object_id timeout =
      if client.service_is_ready || client.wait_for_service timeout
      then find_object object_id (client.send_request world_object_geometry timeout)
      else none

abbrev at_least_one : ℕ → ℕ
at_least_one n = if ltb n 1 then 1 else n

module _ {W : Type 0} ⦃d : Double W⦄ where
  unfoldable pub resolve_candidate_timeout_sec : PlanGraspsGoal W → W
  resolve_candidate_timeout_sec goal =
      let seconds = goal.planning_timeout_sec in
      let planning_timeout_sec =
        if d.is_finite seconds && is_pos seconds then seconds else d.ratio 5 1 in
      d.div planning_timeout_sec (d.of_int (pos (at_least_one (length goal.candidates))))
