-- ===== src/SceneSync/Scene/Laws.antt =====
-- The tracked frames implement the scene that the messages make.
use intrinsic_moveit.Prelude.{
  refl, str_eq, Bool, false, true, ℕ, ℤ, Str, contains, List, [], ◌∷◌, Option, none, ◌≡◌, sym,
}
use intrinsic_moveit.Double.{Double, Cmath}
use intrinsic_moveit.SceneSync.World.{WorldClient, ShapeMesh}
use intrinsic_moveit.SceneSync.Data.{Config, Data, initial}
use intrinsic_moveit.SceneSync.Publish.{
  add_collision_objects_to_scene, frames_to_add, remove_collision_object, removal,
}
use intrinsic_moveit.SceneSync.Update.{update_collision_objects}
use intrinsic_moveit.SceneSync.Fetch.{track}
use intrinsic_moveit.SceneSync.Fetch.Laws.{fetch-keeps}
use intrinsic_moveit.SceneSync.Invariant.{contains-insert}
use intrinsic_moveit.SceneSync.Run.{
  Call, tf_message, take_names, fetch, publish, remove, update, stop, take_sync_names, step, run,
}
use intrinsic_moveit.SceneSync.Scene.{Scene, no_objects, after_messages, scene_after}
use intrinsic_moveit.SceneSync.Scene.Moves.{
  IsHeld, remove-IsHeld, update_frames-IsHeld, on_tf_message-IsHeld,
}
use intrinsic_moveit.SceneSync.Scene.Adds.{messages_for-IsHeld, messages_for-covers}

same_truth : (a b : Bool) → (a ≡ true → b ≡ true) → (b ≡ true → a ≡ true) → a ≡ b
same_truth true b f g = sym (f refl)
same_truth false true f g = g refl
same_truth false false f g = refl

module _ {W : Type 0} ⦃d : Double W⦄ ⦃m : Cmath W⦄ (world : WorldClient W)
    (create_mesh : List ℕ → Option (ShapeMesh W)) (seconds : ℤ → W) (config : Config W) where
  pub step-IsHeld :
      (s : Data W) (scene : Scene) (call : Call W)
      → IsHeld s scene
      → IsHeld
          (step world create_mesh seconds config s call).0
          (after_messages scene (step world create_mesh seconds config s call).1)
  unfolding step take_sync_names update_collision_objects add_collision_objects_to_scene track
      removal remove_collision_object str_eq
  step-IsHeld s scene (tf_message t_now message) held =
      on_tf_message-IsHeld seconds config t_now s message scene held
  step-IsHeld s scene take_names held = held
  step-IsHeld s scene (fetch names) held =
      fetch-keeps (λ t. IsHeld t scene)
        (record {
          renderable = λ t id gltf h. h;
          primitive = λ t id p h. h;
          tracked = λ t frame id pose named shaped h.
              λ other k. contains-insert frame other _ t.collision_tf_frame_to_mesh_ids (h other k);
        })
        world config s names held
  step-IsHeld s scene (publish frames) held =
      messages_for-IsHeld create_mesh s (frames_to_add s frames) scene held
  step-IsHeld s scene (remove frame) held = remove-IsHeld s frame scene held
  step-IsHeld s scene (update t_now transforms) held =
      update_frames-IsHeld seconds config t_now transforms s.collision_tf_frame_to_mesh_ids s scene
        held
  step-IsHeld s scene stop held = held

  pub run_from-IsHeld :
      (calls : List (Call W)) (s : Data W) (scene : Scene)
      → IsHeld s scene
      → IsHeld
          (run world create_mesh seconds config s calls)
          (scene_after world create_mesh seconds config s scene calls)
  unfolding run scene_after
  run_from-IsHeld [] s scene held = held
  run_from-IsHeld (call ∷ calls) s scene held =
      run_from-IsHeld calls _ _ (step-IsHeld s scene call held)

  pub publish_all-exact :
      (s : Data W) (scene : Scene)
      → IsHeld s scene
      → (id : Str)
      → after_messages scene (add_collision_objects_to_scene create_mesh s none) id
        ≡ contains id s.collision_tf_frame_to_mesh_ids
  unfolding add_collision_objects_to_scene frames_to_add
  publish_all-exact s scene held id =
      same_truth _ _ (λ h. messages_for-IsHeld create_mesh s (frames_to_add s none) scene held id h)
        (λ h. messages_for-covers create_mesh s s.collision_tf_frame_to_mesh_ids scene id h h)

  -- The scene of the messages and the tracked frames after some calls.
  pub record IsScene (calls : List (Call W)) : Type 0 where
    pub held :
        IsHeld
          (run world create_mesh seconds config initial calls)
          (scene_after world create_mesh seconds config initial no_objects calls)
    pub exact :
        (id : Str)
        → after_messages
            (scene_after world create_mesh seconds config initial no_objects calls)
            (add_collision_objects_to_scene create_mesh
              (run world create_mesh seconds config initial calls)
              none)
            id
          ≡ contains id
              (run world create_mesh seconds config initial calls).collision_tf_frame_to_mesh_ids

  -- Against a scene that starts empty and takes every message: after any sequence of calls, whatever
  -- the world service answers, the scene holds tracked objects only; and once all objects are
  -- published then, it holds exactly the tracked ones.
  pub run-IsScene : (calls : List (Call W)) → IsScene calls
  run-IsScene calls =
      let held : IsHeld (run world create_mesh seconds config initial calls)
          (scene_after world create_mesh seconds config initial no_objects calls) =
        run_from-IsHeld calls initial no_objects (λ id h. absurd (cc)) in
      record { held = held; exact = publish_all-exact _ _ held }
