-- ===== src/SceneSync/Tests.antt =====
-- The synchronizer at a world with one block, a box, and the theorems there.
use intrinsic_moveit.SceneSync.Scene.Laws.{IsScene, run-IsScene}
use intrinsic_moveit.Prelude.{
  ℕ, ℤ, pos, pos_part, neg_part, ◌+◌, ◌-ℤ◌, codes, lookup, insert, str_eq, starts_with, last_part,
  take_until, mem_str, Unique, All, List, [], ◌∷◌, Option, none, some, ◌≡◌, refl, ok,
}
use intrinsic_moveit.Double.{Cmath, milli_double}
use intrinsic_moveit.Messages.{Vector3, Quaternion}
use intrinsic_moveit.SceneSync.World.{
  WorldClient, WorldObject, TransformedGeometry, inline_geometry, no_matrix, box_shape, ShapeMesh,
  CollisionObject, TransformStamped,
}
use intrinsic_moveit.SceneSync.Data.{Config, Data, initial, strip_tf_prefixes}
use intrinsic_moveit.SceneSync.Fetch.{
  fetch_and_synchronize_collision_objects, fetch_objects, fetch_entities, fetch_named,
  fetch_geometries, fetch_geometry, store_geometry, store_primitives, store_primitive,
  solid_primitive, track, tf_frame_of, mesh_id_of,
}
use intrinsic_moveit.SceneSync.Tracking.{
  on_tf_message, find_frames, to_ros, object_name_of, remove_deleted, request_sync, appended,
}
use intrinsic_moveit.SceneSync.Update.{update_frames, update_collision_objects}
use intrinsic_moveit.SceneSync.Run.{
  step, add_if_ok, Call, tf_message, fetch, take_sync_names, sync_round, run,
}
use intrinsic_moveit.SceneSync.Publish.{add_collision_objects_to_scene}
use intrinsic_moveit.SceneSync.Publish.Laws.{IsCovering, add_collision_objects_to_scene-IsCovering}
use intrinsic_moveit.SceneSync.Update.Due.{due_moves}
use intrinsic_moveit.SceneSync.Update.Records.{IsRecorded}
use intrinsic_moveit.SceneSync.Update.Laws.{update_collision_objects-due}
use intrinsic_moveit.SceneSync.Run.Laws.{run-IsTracked, sync_round-named}
use intrinsic_moveit.SceneSync.Invariant.{IsTracked}

-- Stand-ins that are right at 0 and 1.
instance abbrev milli_cmath : Cmath ℤ
milli_cmath = record {
  sqrt = λ x. x;
  abs = λ x. pos (pos_part x + neg_part x);
  acos = λ x. pos 1000 -ℤ x;
}

abbrev zero_vector : Vector3 ℤ
zero_vector = record { x = pos 0; y = pos 0; z = pos 0 }

abbrev upright : Quaternion ℤ
upright = record { x = pos 0; y = pos 0; z = pos 0; w = pos 1000 }

abbrev geometry : TransformedGeometry ℤ
geometry = record {
  ref_t_shape = no_matrix;
  geometry = inline_geometry (some (some (box_shape zero_vector) ∷ []));
}

abbrev block : WorldObject ℤ
block = record {
  name = codes "world/block";
  entities =
      record {
        name = codes "base";
        geometry_component =
            some ((codes "Intrinsic_Collision", (codes "shape", geometry) ∷ []) ∷ []);
      }
      ∷ [];
}

abbrev world : WorldClient ℤ
world = record { get_objects = λ names. ok (block ∷ []); get_gltf = λ exact renderable. ok [] }

abbrev config : Config ℤ
config = record {
  tf_prefix = [];
  strip_tf_prefixes = [] ∷ [];
  excluded_collision_namespaces = codes "gripper" ∷ [];
  collision_objects_update_rate_hz = pos 10000;
  collision_objects_min_position_delta = pos 1;
  collision_objects_min_rotation_delta = pos 10;
  world_sync_interval_sec = pos 2000;
}

abbrev create_mesh : List ℕ → Option (ShapeMesh ℤ)
create_mesh gltf =
    some
      (record { vertex_count = 0; triangle_count = 0; vertices = λ i. pos 0; triangles = λ i. 0 })

abbrev seconds : ℤ → ℤ
seconds t = t

abbrev at_origin : TransformStamped ℤ
at_origin = record {
  frame_id = codes "root";
  child_frame_id = codes "block/base";
  translation = zero_vector;
  rotation = upright;
}

-- The block is seen, and then fetched.
abbrev calls : List (Call ℤ)
calls = tf_message (pos 0) (at_origin ∷ []) ∷ fetch none ∷ []

abbrev after : Data ℤ
after = run world create_mesh seconds config initial calls

tracked_block :
    after.collision_tf_frame_to_mesh_ids ≡ (codes "block/base", codes "/block/base/shape" ∷ []) ∷ []
unfolding run step on_tf_message find_frames to_ros object_name_of remove_deleted request_sync
    appended update_collision_objects update_frames fetch_and_synchronize_collision_objects
    fetch_objects fetch_entities fetch_named fetch_geometries fetch_geometry store_geometry
    store_primitives store_primitive solid_primitive track tf_frame_of mesh_id_of strip_tf_prefixes
    starts_with last_part take_until initial codes str_eq mem_str lookup insert
tracked_block = refl

waiting : after.sync_object_names ≡ some (codes "block" ∷ [])
unfolding run step on_tf_message find_frames to_ros object_name_of remove_deleted request_sync
    appended update_collision_objects update_frames fetch_and_synchronize_collision_objects
    fetch_objects fetch_entities fetch_named fetch_geometries fetch_geometry store_geometry
    store_primitives store_primitive solid_primitive track tf_frame_of mesh_id_of strip_tf_prefixes
    starts_with last_part take_until initial codes str_eq mem_str lookup insert
waiting = refl

run-IsTracked_example : IsTracked after
run-IsTracked_example = run-IsTracked world create_mesh seconds config calls

abbrev fetched_again : Data ℤ
fetched_again =
    (fetch_and_synchronize_collision_objects world config (take_sync_names after).0
      (some (codes "block" ∷ []))).0

abbrev published : List (CollisionObject ℤ)
published = add_collision_objects_to_scene create_mesh fetched_again (some (codes "block" ∷ []))

round : sync_round world create_mesh config after ≡ some (fetched_again, published)
unfolding sync_round add_if_ok take_sync_names run step on_tf_message find_frames to_ros
    object_name_of remove_deleted request_sync appended update_collision_objects update_frames
    fetch_and_synchronize_collision_objects fetch_objects fetch_entities fetch_named
    fetch_geometries fetch_geometry store_geometry store_primitives store_primitive solid_primitive
    track tf_frame_of mesh_id_of strip_tf_prefixes starts_with last_part take_until initial codes
    str_eq mem_str lookup insert
round = refl

sync_round-named_example : published ≡ []
sync_round-named_example =
    sync_round-named world create_mesh seconds config calls (codes "block" ∷ []) fetched_again
      published waiting round

add_collision_objects_to_scene-IsCovering_example :
    All (IsCovering create_mesh after) (add_collision_objects_to_scene create_mesh after none)
add_collision_objects_to_scene-IsCovering_example =
    add_collision_objects_to_scene-IsCovering create_mesh after none
      (run-IsTracked world create_mesh seconds config calls)

unique : Unique after.collision_tf_frame_to_mesh_ids
unique = (run-IsTracked world create_mesh seconds config calls).unique

update_collision_objects-due_example :
    ((update_collision_objects seconds config (pos 500) after (at_origin ∷ [])).1
      ≡ due_moves seconds config
          (pos 500)
          after
          (at_origin ∷ [])
          after.collision_tf_frame_to_mesh_ids)
    × All
        (λ e.
          IsRecorded seconds config
            (pos 500)
            after
            (update_collision_objects seconds config (pos 500) after (at_origin ∷ [])).0
            (at_origin ∷ [])
            e.0)
        after.collision_tf_frame_to_mesh_ids
update_collision_objects-due_example =
    update_collision_objects-due seconds config (pos 500) after (at_origin ∷ []) unique

run-IsScene_example : IsScene world create_mesh seconds config calls
run-IsScene_example = run-IsScene world create_mesh seconds config calls
