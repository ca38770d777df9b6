-- ===== src/SceneSync/Scene/Adds.antt =====
-- The messages that add objects: those of the frames that they are for, as far as they are tracked.
use intrinsic_moveit.Prelude.{
  sym, subst, Bool-cases, str_eq, str_eq_iff, contains, arith, Dict, [], ◌∷◌, map, Option-cases,
  lookup, inl, inr, none, some, true, ℕ, Str, str_eq, str_eq_iff, contains, lookup, map, List, [],
  ◌∷◌, Option, Option-cases, none, some, true, Bool-cases, ◌≡◌, refl, sym, subst, ap, ◌∙◌, inl, inr,
  arith,
}
use intrinsic_moveit.Double.{Double}
use intrinsic_moveit.Messages.{Pose}
use intrinsic_moveit.SceneSync.World.{CollisionObject, Operation, add_operation, ShapeMesh}
use intrinsic_moveit.SceneSync.Data.{Data}
use intrinsic_moveit.SceneSync.Publish.{
  ObjectCollisionData, collect, collect_frame, objects_to_process, add_mesh, add_meshes,
  collision_object,
}
use intrinsic_moveit.SceneSync.Publish.Collect.{collect-name}
use intrinsic_moveit.SceneSync.Scene.Moves.{IsHeld}
use intrinsic_moveit.SceneSync.Scene.{Scene, changed, after_messages}

-- What a message does to the scene.
abbrev act : {W : Type 0} → CollisionObject W → Operation × Str
act m = (m.operation, m.id)

module _ {W : Type 0} ⦃d : Double W⦄ (create_mesh : List ℕ → Option (ShapeMesh W)) where
  add_mesh-adds :
      (o : Option (ShapeMesh W)) (pose : Pose W) (object : CollisionObject W)
      → act (add_mesh create_mesh o pose object) ≡ act object
  unfolding add_mesh
  add_mesh-adds none pose object = refl
  add_mesh-adds (some shape) pose object = refl

  add_meshes-adds :
      (meshes : List (List ℕ × Pose W)) (object : CollisionObject W)
      → act (add_meshes create_mesh meshes object) ≡ act object
  unfolding add_meshes
  add_meshes-adds [] object = refl
  add_meshes-adds ((gltf, pose) ∷ rest) object =
      add_mesh-adds (create_mesh gltf) pose (add_meshes create_mesh rest object)
      ∙ add_meshes-adds rest object

  -- A message for a frame adds the frame's object.
  collision_object-adds :
      (object : ObjectCollisionData W)
      → ◌≡◌ {A = Operation × Str}
          (act (collision_object create_mesh object))
          (add_operation, object.tf_frame_name)
  unfolding collision_object
  collision_object-adds object = add_meshes-adds object.gltf_meshes _

  after_add :
      (s : Data W) (frame : Str) (ids : List Str) (scene : Scene)
      → changed
          (collision_object create_mesh (collect s frame ids)).operation
          (collision_object create_mesh (collect s frame ids)).id
          scene
        ≡ changed add_operation frame scene
  after_add s frame ids scene =
      ap (λ (p : Operation × Str). changed p.0 p.1 scene)
        (collision_object-adds (collect s frame ids))
      ∙ ap (λ name. changed add_operation name scene) (collect-name s frame ids)

  -- What is published for some frames.
  abbrev messages_for : Data W → List Str → List (CollisionObject W)
  messages_for s frames = map (collision_object create_mesh) (objects_to_process s frames)

  messages_for-untracked :
      (s : Data W) (frame : Str) (frames : List Str)
      → lookup frame s.collision_tf_frame_to_mesh_ids ≡ none
      → messages_for s (frame ∷ frames) ≡ messages_for s frames
  unfolding objects_to_process collect_frame
  messages_for-untracked s frame frames e = rw e refl

  messages_for-tracked :
      (s : Data W) (frame : Str) (frames ids : List Str) (scene : Scene)
      → lookup frame s.collision_tf_frame_to_mesh_ids ≡ some ids
      → after_messages scene (messages_for s (frame ∷ frames))
        ≡ after_messages (changed add_operation frame scene) (messages_for s frames)
  unfolding objects_to_process collect_frame
  messages_for-tracked s frame frames ids scene e =
      rw e (ap (λ seen. after_messages seen (messages_for s frames)) (after_add s frame ids scene))

  pub messages_for-IsHeld :
      (s : Data W) (frames : List Str) (scene : Scene)
      → IsHeld s scene
      → IsHeld s (after_messages scene (messages_for s frames))
  unfolding objects_to_process
  messages_for-IsHeld s [] scene held = held
  messages_for-IsHeld s (frame ∷ frames) scene held =
      elim (Option-cases (lookup frame s.collision_tf_frame_to_mesh_ids)) [
        | inl e ↦
            subst (λ ms. IsHeld s (after_messages scene ms))
              (sym (messages_for-untracked s frame frames e))
              (messages_for-IsHeld s frames scene held)
        | inr (ids, e) ↦ subst (IsHeld s) (sym (messages_for-tracked s frame frames ids scene e)) (
            messages_for-IsHeld s frames (changed add_operation frame scene)
              (λ id h. ground (arith, str_eq_iff frame id, held id, e)))
      ]

  messages_for-keeps :
      (s : Data W) (frames : List Str) (scene : Scene) (id : Str)
      → scene id ≡ true
      → after_messages scene (messages_for s frames) id ≡ true
  unfolding objects_to_process
  messages_for-keeps s [] scene id h = h
  messages_for-keeps s (frame ∷ frames) scene id h =
      elim (Option-cases (lookup frame s.collision_tf_frame_to_mesh_ids)) [
        | inl e ↦
            subst (λ ms. after_messages scene ms id ≡ true)
              (sym (messages_for-untracked s frame frames e))
              (messages_for-keeps s frames scene id h)
        | inr (ids, e) ↦
            subst (λ (seen : Scene). seen id ≡ true)
              (sym (messages_for-tracked s frame frames ids scene e))
              (messages_for-keeps s frames (changed add_operation frame scene) id (ground arith))
      ]

  -- An object that is tracked and that is among the frames is in the scene after their messages.
  pub messages_for-covers :
      (s : Data W) (m : Dict (List Str)) (scene : Scene) (id : Str)
      → contains id m ≡ true
      → contains id s.collision_tf_frame_to_mesh_ids ≡ true
      → after_messages scene (messages_for s (map (λ entry. entry.0) m)) id ≡ true
  unfolding lookup
  messages_for-covers s [] scene id h tracked = absurd (cc)
  messages_for-covers s ((frame, ids) ∷ m) scene id h tracked =
      let frames = map (λ (entry : Str × List Str). entry.0) m in
      elim (Option-cases (lookup frame s.collision_tf_frame_to_mesh_ids)) [
        | inl e ↦
            subst (λ ms. after_messages scene ms id ≡ true)
              (sym (messages_for-untracked s frame frames e))
              (messages_for-covers s m scene id (ground (arith, str_eq_iff frame id)) tracked)
        | inr (found, e) ↦
            subst (λ (seen : Scene). seen id ≡ true)
              (sym (messages_for-tracked s frame frames found scene e))
              (elim (Bool-cases (str_eq frame id)) [
                | inl q ↦
                    messages_for-keeps s frames (changed add_operation frame scene) id
                      (ground arith)
                | inr q ↦
                    messages_for-covers s m (changed add_operation frame scene) id (ground arith)
                      tracked
              ])
      ]
