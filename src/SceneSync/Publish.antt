-- ===== src/SceneSync/Publish.antt =====
-- moveit_planning_service/src/moveit_scene_synchronizer.cpp: addCollisionObjectsToScene and
-- removeCollisionObject. `create_mesh` is shapes::createMeshFromBinary.
pub mod Collect
pub mod Laws
use intrinsic_moveit.Prelude.{
  range, ℕ, zero, suc, ◌+◌, ◌*◌, Str, map, lookup, erase, List, [], ◌∷◌, Option, none, some,
}
use intrinsic_moveit.Messages.{Pose}
use intrinsic_moveit.Double.{Double}
use intrinsic_moveit.SceneSync.World.{
  SolidPrimitive, ShapeMesh, Mesh, CollisionObject, add_operation, remove_operation,
}
use intrinsic_moveit.SceneSync.Data.{Data}
use intrinsic_moveit.SceneSync.Fetch.{identity_pose}

pub record ObjectCollisionData (W : Type 0) : Type 0 where
  pub tf_frame_name : Str
  pub gltf_meshes : List (List ℕ × Pose W)
  pub primitives : List (SolidPrimitive W × Pose W)

module _ {W : Type 0} where
  unfoldable pub mesh_msg : ShapeMesh W → Mesh W
  mesh_msg shape = record {
    vertices =
        map
          (λ i. record {
            x = shape.vertices (3 * i);
            y = shape.vertices (3 * i + 1);
            z = shape.vertices (3 * i + 2);
          })
          (range 0 shape.vertex_count);
    triangles =
        map
          (λ i. (shape.triangles (3 * i), shape.triangles (3 * i + 1), shape.triangles (3 * i + 2)))
          (range 0 shape.triangle_count);
  }

  -- One more mesh id: a mesh if there is one, or else a primitive, or else nothing.
  unfoldable pub add_shape :
      Option (List ℕ)
      → Option (SolidPrimitive W)
      → Pose W
      → ObjectCollisionData W
      → ObjectCollisionData W
  add_shape (some gltf) primitive pose rest = record rest {
    gltf_meshes = (gltf, pose) ∷ rest.gltf_meshes;
  }
  add_shape none (some primitive) pose rest = record rest {
    primitives = (primitive, pose) ∷ rest.primitives;
  }
  add_shape none none pose rest = rest

  unfoldable pub add_mesh_id :
      Data W → Str → Option (Pose W) → ObjectCollisionData W → ObjectCollisionData W
  unfolding add_shape
  add_mesh_id s id none rest = rest
  add_mesh_id s id (some pose) rest =
      add_shape (lookup id s.renderables_collision) (lookup id s.primitives_collision) pose rest

  unfoldable pub collect : Data W → Str → List Str → ObjectCollisionData W
  unfolding add_mesh_id
  collect s frame [] = record { tf_frame_name = frame; gltf_meshes = []; primitives = [] }
  collect s frame (id ∷ ids) =
      add_mesh_id s id (lookup id s.relative_mesh_pose) (collect s frame ids)

  -- An object's frame that is not tracked is skipped.
  unfoldable pub collect_frame :
      Data W → Str → Option (List Str) → List (ObjectCollisionData W) → List (ObjectCollisionData W)
  collect_frame s frame none rest = rest
  collect_frame s frame (some ids) rest = collect s frame ids ∷ rest

  unfoldable pub objects_to_process : Data W → List Str → List (ObjectCollisionData W)
  unfolding collect_frame
  objects_to_process s [] = []
  objects_to_process s (frame ∷ frames) =
      collect_frame s frame (lookup frame s.collision_tf_frame_to_mesh_ids)
        (objects_to_process s frames)

  unfoldable pub frames_to_add : Data W → Option (List Str) → List Str
  frames_to_add s none = map (λ entry. entry.0) s.collision_tf_frame_to_mesh_ids
  frames_to_add s (some frames) = frames

module _ {W : Type 0} ⦃d : Double W⦄ (create_mesh : List ℕ → Option (ShapeMesh W)) where
  unfoldable pub add_mesh : Option (ShapeMesh W) → Pose W → CollisionObject W → CollisionObject W
  add_mesh none pose rest = rest
  add_mesh (some shape) pose rest = record rest {
    meshes = mesh_msg shape ∷ rest.meshes;
    mesh_poses = pose ∷ rest.mesh_poses;
  }

  unfoldable pub add_meshes : List (List ℕ × Pose W) → CollisionObject W → CollisionObject W
  unfolding add_mesh
  add_meshes [] object = object
  add_meshes ((gltf, pose) ∷ rest) object =
      add_mesh (create_mesh gltf) pose (add_meshes rest object)

  unfoldable pub collision_object : ObjectCollisionData W → CollisionObject W
  unfolding add_meshes
  collision_object data_of = add_meshes data_of.gltf_meshes (record {
    operation = add_operation;
    frame_id = data_of.tf_frame_name;
    id = data_of.tf_frame_name;
    pose = some identity_pose;
    meshes = [];
    mesh_poses = [];
    primitives = map (λ p. p.0) data_of.primitives;
    primitive_poses = map (λ p. p.1) data_of.primitives;
  })

  -- The messages that are published; the state stays.
  unfoldable pub add_collision_objects_to_scene :
      Data W → Option (List Str) → List (CollisionObject W)
  unfolding frames_to_add
  add_collision_objects_to_scene s object_frames =
      map collision_object (objects_to_process s (frames_to_add s object_frames))

module _ {W : Type 0} where
  unfoldable pub removal : Str → CollisionObject W
  removal tf_frame_name = record {
    operation = remove_operation;
    frame_id = [];
    id = tf_frame_name;
    pose = none;
    meshes = [];
    mesh_poses = [];
    primitives = [];
    primitive_poses = [];
  }

  unfoldable pub remove_collision_object : Data W → Str → Data W × CollisionObject W
  remove_collision_object s tf_frame_name = (
    record s {
      collision_tf_frame_to_mesh_ids = erase tf_frame_name s.collision_tf_frame_to_mesh_ids;
      last_published_collision_pose = erase tf_frame_name s.last_published_collision_pose;
      last_published_collision_time = erase tf_frame_name s.last_published_collision_time;
    },
    removal tf_frame_name,
  )
