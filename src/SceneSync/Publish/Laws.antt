-- ===== src/SceneSync/Publish/Laws.antt =====
-- What addCollisionObjectsToScene publishes.
use intrinsic_moveit.Prelude.{
  keys-contains, subst, ℕ, suc, ◌+◌, Str, slash, has_byte, map, lookup, is_some, length, All, List,
  [], ◌∷◌, Option, none, some, Option-cases, true, false, ◌≡◌, refl, sym, ap, ◌∙◌, arith, inl, inr,
}
use intrinsic_moveit.Double.{Double}
use intrinsic_moveit.Messages.{Pose}
use intrinsic_moveit.SceneSync.World.{ShapeMesh, CollisionObject, add_operation}
use intrinsic_moveit.SceneSync.Data.{Data, tracked_count}
use intrinsic_moveit.SceneSync.Publish.{
  collect, collect_frame, objects_to_process, frames_to_add, add_mesh, add_meshes, collision_object,
  add_collision_objects_to_scene,
}
use intrinsic_moveit.SceneSync.Publish.Collect.{
  length-map, collect-count, collect-name, converts, misfits, kept_poses, dropped, kept, misfit_if,
  collect-Collected,
}
use intrinsic_moveit.SceneSync.Poses.{primitives_where, poses_where, is_primitive}
use intrinsic_moveit.SceneSync.Invariant.{IsTracked}

module _ {W : Type 0} (s : Data W) where
  -- Names without a slash are not among the frames.
  objects_to_process-named :
      (names : List Str)
      → IsTracked s
      → All (λ n. has_byte slash n ≡ false) names
      → objects_to_process s names ≡ []
  unfolding objects_to_process collect_frame
  objects_to_process-named [] t h = refl
  objects_to_process-named (n ∷ names) t h =
      elim (Option-cases (lookup n s.collision_tf_frame_to_mesh_ids)) [
        | inl e ↦ rw e (objects_to_process-named names t h.1)
        | inr (ids, e) ↦ absurd (ground (arith, t.slashed n ids e, h.0))
      ]

module _ {W : Type 0} ⦃d : Double W⦄ (create_mesh : List ℕ → Option (ShapeMesh W)) where
  -- No object is published for names that have no slash.
  pub add_collision_objects_to_scene-named :
      (s : Data W) (names : List Str)
      → IsTracked s
      → All (λ n. has_byte slash n ≡ false) names
      → add_collision_objects_to_scene create_mesh s (some names) ≡ []
  unfolding add_collision_objects_to_scene frames_to_add
  add_collision_objects_to_scene-named s names t h = rw (objects_to_process-named s names t h) refl

  -- The message adds the object of a tracked frame. Each of the frame's ids has its relative pose
  -- there, among those of the meshes or of the primitives, except the meshes that do not convert.
  pub record IsCovering (s : Data W) (m : CollisionObject W) : Type 0 where
    pub ids : List Str
    pub tracked : lookup m.id s.collision_tf_frame_to_mesh_ids ≡ some ids
    pub adds : m.operation ≡ add_operation
    pub same_frame : m.frame_id ≡ m.id
    pub mesh_poses : m.mesh_poses ≡ poses_where (converts create_mesh s) s ids
    pub primitive_poses : m.primitive_poses ≡ poses_where (is_primitive s) s ids
    pub meshes : length m.meshes ≡ length m.mesh_poses
    pub primitives : m.primitives ≡ primitives_where s ids
    pub primitives_posed : length m.primitives ≡ length m.primitive_poses
    pub all_shapes : length m.meshes + length m.primitives + misfits create_mesh s ids ≡ length ids

  record MeshesAdded (object : CollisionObject W) (meshes : List (List ℕ × Pose W))
      (m : CollisionObject W) : Type 0 where
    operation : m.operation ≡ object.operation
    id : m.id ≡ object.id
    frame_id : m.frame_id ≡ object.frame_id
    primitives : m.primitives ≡ object.primitives
    primitive_poses : m.primitive_poses ≡ object.primitive_poses
    mesh_poses : m.mesh_poses ≡ kept_poses create_mesh meshes
    same_length : length m.meshes ≡ length m.mesh_poses
    count : length m.meshes + dropped create_mesh meshes ≡ length meshes

  add_meshes-MeshesAdded :
      (meshes : List (List ℕ × Pose W)) (object : CollisionObject W)
      → object.meshes ≡ []
      → object.mesh_poses ≡ []
      → MeshesAdded object meshes (add_meshes create_mesh meshes object)
  unfolding add_meshes add_mesh
  add_meshes-MeshesAdded [] object e f = record {
    operation = refl;
    id = refl;
    frame_id = refl;
    primitives = refl;
    primitive_poses = refl;
    mesh_poses = f;
    same_length = rw (e, f) refl;
    count = rw e refl;
  }
  add_meshes-MeshesAdded ((gltf, pose) ∷ rest) object e f =
      let r = add_meshes-MeshesAdded rest object e f in
      elim (Option-cases (create_mesh gltf)) [
        | inl k ↦ rw k (record {
          operation = r.operation;
          id = r.id;
          frame_id = r.frame_id;
          primitives = r.primitives;
          primitive_poses = r.primitive_poses;
          mesh_poses =
              r.mesh_poses
              ∙ sym (kept create_mesh gltf pose (kept_poses create_mesh rest) false (rw k refl));
          same_length = r.same_length;
          count = omega (arith, r.count, misfit_if create_mesh gltf false (rw k refl));
        })
        | inr (shape, k) ↦ rw k (record {
          operation = r.operation;
          id = r.id;
          frame_id = r.frame_id;
          primitives = r.primitives;
          primitive_poses = r.primitive_poses;
          mesh_poses =
              ap (λ poses. pose ∷ poses) r.mesh_poses
              ∙ sym (kept create_mesh gltf pose (kept_poses create_mesh rest) true (rw k refl));
          same_length = ap suc r.same_length;
          count = omega (arith, r.count, misfit_if create_mesh gltf true (rw k refl));
        })
      ]

  collision_object-IsCovering :
      (s : Data W) (frame : Str) (ids : List Str)
      → IsTracked s
      → lookup frame s.collision_tf_frame_to_mesh_ids ≡ some ids
      → IsCovering s (collision_object create_mesh (collect s frame ids))
  unfolding collision_object
  collision_object-IsCovering s frame ids t found =
      let object = collect s frame ids in
      let r = add_meshes-MeshesAdded object.gltf_meshes _ refl refl in
      let k = collect-Collected create_mesh s frame ids (t.meshes frame ids found) in
      let count = collect-count s frame ids (t.meshes frame ids found) in
      let pair = ap length r.primitives ∙ length-map (λ p. p.0) object.primitives in
      record {
        ids = ids;
        tracked =
            subst (λ f. lookup f s.collision_tf_frame_to_mesh_ids ≡ some ids)
              (sym (r.id ∙ collect-name s frame ids)) found;
        adds = r.operation;
        same_frame = r.frame_id ∙ sym r.id;
        mesh_poses = r.mesh_poses ∙ k.poses;
        primitive_poses = r.primitive_poses ∙ k.primitive_poses;
        meshes = r.same_length;
        primitives = r.primitives ∙ k.primitives;
        primitives_posed =
            pair ∙ sym (ap length r.primitive_poses ∙ length-map (λ p. p.1) object.primitives);
        all_shapes = omega (arith, r.count, pair, count, k.lost);
      }

  objects_to_process-IsCovering :
      (s : Data W) (frames : List Str)
      → IsTracked s
      → All (IsCovering s) (map (collision_object create_mesh) (objects_to_process s frames))
  unfolding objects_to_process collect_frame
  objects_to_process-IsCovering s [] t = tt
  objects_to_process-IsCovering s (frame ∷ frames) t =
      elim (Option-cases (lookup frame s.collision_tf_frame_to_mesh_ids)) [
        | inl e ↦ rw e (objects_to_process-IsCovering s frames t)
        | inr (ids, e) ↦
            rw e (
              collision_object-IsCovering s frame ids t e,
              objects_to_process-IsCovering s frames t,
            )
      ]

  -- In a state with the invariant that every run keeps, each published object is a tracked frame's.
  -- It has as many meshes as the frame has fetched meshes that convert, with the relative poses of
  -- these, and the primitives of the frame's ids without a fetched mesh, with the relative poses of
  -- those ids: of all ids, only the meshes that do not convert are left out.
  pub add_collision_objects_to_scene-IsCovering :
      (s : Data W) (object_frames : Option (List Str))
      → IsTracked s
      → All (IsCovering s) (add_collision_objects_to_scene create_mesh s object_frames)
  unfolding add_collision_objects_to_scene
  add_collision_objects_to_scene-IsCovering s object_frames t =
      objects_to_process-IsCovering s (frames_to_add s object_frames) t

  objects_to_process-length :
      (s : Data W) (frames : List Str)
      → All (λ f. is_some (lookup f s.collision_tf_frame_to_mesh_ids) ≡ true) frames
      → length (objects_to_process s frames) ≡ length frames
  unfolding objects_to_process collect_frame
  objects_to_process-length s [] h = refl
  objects_to_process-length s (frame ∷ frames) h =
      elim (Option-cases (lookup frame s.collision_tf_frame_to_mesh_ids)) [
        | inl e ↦ absurd (ground (arith, h.0))
        | inr (ids, e) ↦ rw e (ap suc (objects_to_process-length s frames h.1))
      ]

  -- With no names, as many objects are published as frames are tracked.
  pub add_collision_objects_to_scene-count :
      (s : Data W) → length (add_collision_objects_to_scene create_mesh s none) ≡ tracked_count s
  unfolding add_collision_objects_to_scene frames_to_add tracked_count
  add_collision_objects_to_scene-count s =
      length-map _ _
      ∙ objects_to_process-length s _ (keys-contains s.collision_tf_frame_to_mesh_ids)
      ∙ length-map _ s.collision_tf_frame_to_mesh_ids
