-- ===== src/GraspPlanning/SceneQuery/Tests.antt =====
-- A scene with one block, queried by the name of its object.
use intrinsic_moveit.Prelude.{
  ℤ, pos, Str, codes, str_eq, starts_with, List, [], ◌∷◌, none, some, true, ◌≡◌, ◌≢◌, refl, arith,
}
use intrinsic_moveit.Double.{milli_double}
use intrinsic_moveit.SceneSync.Fetch.{identity_pose}
use intrinsic_moveit.SceneSync.World.{CollisionObject, add_operation, box}
use intrinsic_moveit.GraspPlanning.TargetId.{
  resolve_target_object_id, clean_id, canonical_whole, entity_prefix,
}
use intrinsic_moveit.GraspPlanning.SceneQuery.{
  PlanningSceneClient, Components, world_object_names, world_object_geometry, SceneAnswer, objects,
  get_planning_scene_object_ids, get_planning_scene_collision_object,
}
use intrinsic_moveit.GraspPlanning.SceneQuery.Laws.{resolve_target_object_id-found}

abbrev block : CollisionObject ℤ
block = record {
  operation = add_operation;
  frame_id = [];
  id = codes "block/base";
  pose = none;
  meshes = [];
  mesh_poses = [];
  primitives = [];
  primitive_poses = [];
}

-- The same object with its geometry, a box.
abbrev block_box : CollisionObject ℤ
block_box = record block {
  frame_id = codes "world";
  primitives = record { type = box; dimensions = pos 50 ∷ pos 40 ∷ pos 30 ∷ [] } ∷ [];
  primitive_poses = identity_pose ∷ [];
}

abbrev answer : Components → SceneAnswer ℤ
answer world_object_names = objects (block ∷ [])
answer world_object_geometry = objects (block_box ∷ [])

abbrev client : PlanningSceneClient ℤ
client = record {
  service_is_ready = true;
  wait_for_service = λ timeout. true;
  send_request = λ components timeout. answer components;
}

abbrev ids : List Str
ids = get_planning_scene_object_ids (some client) (pos 1000)

resolved : resolve_target_object_id ids (codes "block") ≡ codes "block/base"
unfolding resolve_target_object_id get_planning_scene_object_ids clean_id canonical_whole
    entity_prefix codes str_eq starts_with
resolved = refl

longer : codes "block/base" ≢ codes "block"
unfolding codes
longer = λ e. ground arith

other : resolve_target_object_id ids (codes "block") ≢ codes "block"
other = rw resolved longer

resolve_target_object_id-found_example :
    (o : CollisionObject ℤ) × (get_planning_scene_collision_object
        (some client)
        (resolve_target_object_id ids (codes "block"))
        (pos 1000)
      ≡ some o)
    × (o.id ≡ resolve_target_object_id ids (codes "block"))
resolve_target_object_id-found_example =
    resolve_target_object_id-found client (pos 1000) (block ∷ []) (block_box ∷ []) (codes "block")
      refl refl refl other
