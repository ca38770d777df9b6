-- ===== src/SceneSync/Scene/Moves.antt =====
-- The scene holds tracked frames only: the messages that remove and move objects.
use intrinsic_moveit.Prelude.{
  ℤ, Str, str_eq, mem_str, find?, contains, lookup, lookup-erase, All, All-append, List, [], ◌∷◌,
  ◌++◌, Option, none, some, true, false, Bool-cases, ◌≡◌, refl, sym, subst, ap, ◌∙◌, inl, inr,
  arith,
}
use intrinsic_moveit.Double.{Double, Cmath}
use intrinsic_moveit.SceneSync.World.{
  CollisionObject, move_operation, remove_operation, TransformStamped,
}
use intrinsic_moveit.SceneSync.Data.{Config, Data}
use intrinsic_moveit.SceneSync.Publish.{remove_collision_object, removal}
use intrinsic_moveit.SceneSync.Update.{
  update_frame, update_frames, update_collision_objects, record_published, throttled, in_deadband,
  new_pose, moved_object,
}
use intrinsic_moveit.SceneSync.Tracking.{find_frames, remove_deleted, request_sync, on_tf_message}
use intrinsic_moveit.SceneSync.Tracking.Keeps.{update_frames-keeps}
use intrinsic_moveit.SceneSync.Scene.{Scene, changed, after_messages}

-- Every object of the scene is tracked.
abbrev pub IsHeld : {W : Type 0} → Data W → Scene → Type 0
IsHeld s scene = (id : Str) → scene id ≡ true → contains id s.collision_tf_frame_to_mesh_ids ≡ true

pub after_messages-append :
    {W : Type 0} (scene : Scene) (ms ns : List (CollisionObject W))
    → after_messages scene (ms ++ ns) ≡ after_messages (after_messages scene ms) ns
after_messages-append scene [] ns = refl
after_messages-append scene (m ∷ ms) ns =
    after_messages-append (changed m.operation m.id scene) ms ns

after_messages-moves :
    {W : Type 0} (scene : Scene) (ms : List (CollisionObject W))
    → All (λ m. m.operation ≡ move_operation) ms
    → after_messages scene ms ≡ scene
after_messages-moves scene [] h = refl
after_messages-moves scene (m ∷ ms) h =
    ap (λ o. after_messages (changed o m.id scene) ms) h.0 ∙ after_messages-moves scene ms h.1

module _ {W : Type 0} where
  pub remove-IsHeld :
      (s : Data W) (frame : Str) (scene : Scene)
      → IsHeld s scene
      → IsHeld (remove_collision_object s frame).0 (changed remove_operation frame scene)
  unfolding remove_collision_object
  remove-IsHeld s frame scene held = λ id h.
      (let k : scene id ≡ true = ground arith in
        let e : str_eq frame id ≡ false = ground arith in
        ground (arith, held id k, lookup-erase frame id s.collision_tf_frame_to_mesh_ids))

  remove_deleted-IsHeld :
      (new_names frames : List Str) (s : Data W) (scene : Scene)
      → IsHeld s scene
      → IsHeld
          (remove_deleted new_names s frames).0
          (after_messages scene (remove_deleted new_names s frames).1)
  unfolding remove_deleted remove_collision_object removal
  remove_deleted-IsHeld new_names [] s scene held = held
  remove_deleted-IsHeld new_names (frame ∷ rest) s scene held =
      elim (Bool-cases (mem_str frame new_names)) [
        | inl e ↦ rw e (remove_deleted-IsHeld new_names rest s scene held)
        | inr e ↦ rw e (
            remove_deleted-IsHeld new_names rest (remove_collision_object s frame).0
              (changed remove_operation frame scene) (remove-IsHeld s frame scene held))
      ]

module _ {W : Type 0} ⦃d : Double W⦄ ⦃m : Cmath W⦄ (seconds : ℤ → W) (config : Config W)
    (t_now : ℤ) where
  update_frame-moves :
      (s : Data W) (frame : Str) (ids : List Str) (o : Option (TransformStamped W))
      → All (λ m. m.operation ≡ move_operation) (update_frame seconds config t_now s frame ids o).1
  unfolding update_frame moved_object
  update_frame-moves s frame ids none = tt
  update_frame-moves s frame ids (some x) =
      elim (Bool-cases
        (throttled seconds config t_now (lookup frame s.last_published_collision_time))) [
          | inl e ↦ rw e tt
          | inr e ↦
              elim (Bool-cases
                (in_deadband config (new_pose x) (lookup frame s.last_published_collision_pose))) [
                  | inl k ↦ rw (e, k) tt
                  | inr k ↦ rw (e, k) (refl, tt)
                ]
        ]

  update_frames-moves :
      (transforms : List (TransformStamped W)) (frames : List (Str × List Str)) (s : Data W)
      → All
          (λ m. m.operation ≡ move_operation)
          (update_frames seconds config t_now transforms s frames).1
  unfolding update_frames
  update_frames-moves transforms [] s = tt
  update_frames-moves transforms ((frame, ids) ∷ rest) s =
      let o = find? (λ t. str_eq t.child_frame_id frame) transforms in
      All-append _ (update_frame seconds config t_now s frame ids o).1 _
        (update_frame-moves s frame ids o)
        (update_frames-moves transforms rest (update_frame seconds config t_now s frame ids o).0)

  pub update_frames-IsHeld :
      (transforms : List (TransformStamped W)) (frames : List (Str × List Str)) (s : Data W)
      (scene : Scene)
      → IsHeld s scene
      → IsHeld
          (update_frames seconds config t_now transforms s frames).0
          (after_messages scene (update_frames seconds config t_now transforms s frames).1)
  unfolding record_published
  update_frames-IsHeld transforms frames s scene held =
      let moves = update_frames-moves transforms frames s in
      subst (IsHeld (update_frames seconds config t_now transforms s frames).0)
        (sym (after_messages-moves scene _ moves))
        (update_frames-keeps seconds config t_now (λ t. IsHeld t scene) (λ t frame pose h. h)
          transforms frames s held)

  request_sync-IsHeld :
      (s : Data W) (names : List Str) (scene : Scene)
      → IsHeld s scene
      → IsHeld (request_sync s names) scene
  unfolding request_sync
  request_sync-IsHeld s [] scene held = held
  request_sync-IsHeld s (name ∷ names) scene held = held

  pub on_tf_message-IsHeld :
      (s : Data W) (message : List (TransformStamped W)) (scene : Scene)
      → IsHeld s scene
      → IsHeld
          (on_tf_message seconds config s t_now message).0
          (after_messages scene (on_tf_message seconds config s t_now message).1)
  unfolding on_tf_message update_collision_objects
  on_tf_message-IsHeld s message scene held =
      let found =
        find_frames config s.tf_frame_names
          (record { transforms = []; new_tf_frame_names = []; new_object_names = [] }) message in
      let r = remove_deleted found.new_tf_frame_names s s.tf_frame_names in
      let s2 = request_sync r.0 found.new_object_names in
      let s3 : Data W = record s2 { tf_frame_names = found.new_tf_frame_names } in
      let r4 = update_collision_objects seconds config t_now s3 found.transforms in
      let left = remove_deleted-IsHeld found.new_tf_frame_names s.tf_frame_names s scene held in
      subst (IsHeld r4.0) (sym (after_messages-append scene r.1 r4.1)) (
        update_frames-IsHeld found.transforms s3.collision_tf_frame_to_mesh_ids s3
          (after_messages scene r.1)
          (request_sync-IsHeld r.0 found.new_object_names (after_messages scene r.1) left))
