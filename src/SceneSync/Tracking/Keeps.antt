-- ===== src/SceneSync/Tracking/Keeps.antt =====
-- What the two changes of the TF callback to the tracked frames keep, its loops keep.
use intrinsic_moveit.Prelude.{
  ℤ, Str, str_eq, mem_str, find?, lookup, List, [], ◌∷◌, Option, none, some, Bool-cases, inl, inr,
}
use intrinsic_moveit.Double.{Double, Cmath}
use intrinsic_moveit.Messages.{Pose}
use intrinsic_moveit.SceneSync.World.{TransformStamped}
use intrinsic_moveit.SceneSync.Data.{Config, Data}
use intrinsic_moveit.SceneSync.Publish.{remove_collision_object}
use intrinsic_moveit.SceneSync.Update.{
  update_frame, update_frames, record_published, throttled, in_deadband, new_pose,
}
use intrinsic_moveit.SceneSync.Tracking.{remove_deleted}

module _ {W : Type 0} (P : Data W → Type 0)
    (removed : (s : Data W) (frame : Str) → P s → P (remove_collision_object s frame).0) where
  pub remove_deleted-keeps :
      (new_names frames : List Str) (s : Data W) → P s → P (remove_deleted new_names s frames).0
  unfolding remove_deleted
  remove_deleted-keeps new_names [] s t = t
  remove_deleted-keeps new_names (frame ∷ rest) s t = elim (Bool-cases (mem_str frame new_names)) [
    | inl e ↦ rw e (remove_deleted-keeps new_names rest s t)
    | inr e ↦ rw e (remove_deleted-keeps new_names rest _ (removed s frame t))
  ]

module _ {W : Type 0} ⦃d : Double W⦄ ⦃m : Cmath W⦄ (seconds : ℤ → W) (config : Config W) (t_now : ℤ)
    (P : Data W → Type 0)
    (published : (s : Data W) (frame : Str) (pose : Pose W)
      → P s
      → P (record_published s frame pose t_now)) where
  update_frame-keeps :
      (s : Data W) (frame : Str) (ids : List Str) (o : Option (TransformStamped W))
      → P s
      → P (update_frame seconds config t_now s frame ids o).0
  unfolding update_frame
  update_frame-keeps s frame ids none t = t
  update_frame-keeps s frame ids (some x) t =
      elim (Bool-cases
        (throttled seconds config t_now (lookup frame s.last_published_collision_time))) [
          | inl e ↦ rw e t
          | inr e ↦
              elim (Bool-cases
                (in_deadband config (new_pose x) (lookup frame s.last_published_collision_pose))) [
                  | inl k ↦ rw (e, k) t
                  | inr k ↦ rw (e, k) (published s frame (new_pose x) t)
                ]
        ]

  pub update_frames-keeps :
      (transforms : List (TransformStamped W)) (frames : List (Str × List Str)) (s : Data W)
      → P s
      → P (update_frames seconds config t_now transforms s frames).0
  unfolding update_frames
  update_frames-keeps transforms [] s t = t
  update_frames-keeps transforms ((frame, ids) ∷ rest) s t =
      update_frames-keeps transforms rest _
        (update_frame-keeps s frame ids (find? (λ t. str_eq t.child_frame_id frame) transforms) t)
