-- ===== src/SceneSync/Wait.antt =====
-- moveit_planning_service/src/moveit_scene_synchronizer.cpp: what the sync thread waits for, and which
-- names are asked for and taken over a run.
pub mod Laws
use intrinsic_moveit.Prelude.{
  ℕ, ℤ, Str, List, [], ◌∷◌, ◌++◌, Option, none, some, Bool, ◌||◌, if◌then◌else◌,
}
use intrinsic_moveit.Double.{Double, Cmath, is_pos}
use intrinsic_moveit.SceneSync.World.{WorldClient, ShapeMesh, TransformStamped}
use intrinsic_moveit.SceneSync.Data.{Config, Data}
use intrinsic_moveit.SceneSync.Tracking.{find_frames}
use intrinsic_moveit.SceneSync.Run.{
  Call, tf_message, take_names, fetch, publish, remove, update, stop, step,
}
use intrinsic_moveit.SceneSync.Invariant.{or_none}

module _ {W : Type 0} ⦃d : Double W⦄ (config : Config W) where
  -- The wait for the next round is over; `timed_out` is whether the interval has passed.
  unfoldable pub wait_over : Bool → Data W → Bool
  wait_over timed_out s =
      if is_pos config.world_sync_interval_sec
      then (s.sync_new_objects || s.shutdown) || timed_out
      else s.sync_new_objects || s.shutdown

module _ {W : Type 0} (config : Config W) where
  -- The names that a call asks for: those of the objects with new frames in a TF message.
  unfoldable pub requested : Data W → Call W → List Str
  requested s (tf_message t_now message) =
      (find_frames config s.tf_frame_names
        (record { transforms = []; new_tf_frame_names = []; new_object_names = [] })
        message).new_object_names
  requested s _ = []

  -- The names that a call takes to fetch them.
  unfoldable pub taken : Data W → Call W → List Str
  taken s take_names = or_none s.sync_object_names
  taken s _ = []

module _ {W : Type 0} ⦃d : Double W⦄ ⦃m : Cmath W⦄ (world : WorldClient W)
    (create_mesh : List ℕ → Option (ShapeMesh W)) (seconds : ℤ → W) (config : Config W) where
  unfoldable pub all_requested : Data W → List (Call W) → List Str
  all_requested s [] = []
  all_requested s (call ∷ calls) =
      requested config s call
      ++ all_requested (step world create_mesh seconds config s call).0 calls

  unfoldable pub all_taken : Data W → List (Call W) → List Str
  all_taken s [] = []
  all_taken s (call ∷ calls) =
      taken config s call ++ all_taken (step world create_mesh seconds config s call).0 calls
