-- ===== src/SceneSync/Run.antt =====
-- moveit_planning_service/src/moveit_scene_synchronizer.cpp: one round of the sync thread, the
-- service ~/sync_collision_objects and fetchAndSynchronizeCollisionObjects; and a run of the
-- synchronizer as the sequence of its calls, in any order. The calls that wait for the world
-- service come apart into the fetch and the publication, since others may come between.
pub mod Laws
use intrinsic_moveit.Prelude.{
  ℕ, ℤ, Str, List, [], ◌∷◌, Option, none, some, Bool, true, false, if◌then◌else◌, StatusOr, ok, err,
}
use intrinsic_moveit.Double.{Double, Cmath}
use intrinsic_moveit.SceneSync.World.{CollisionObject, TransformStamped, WorldClient, ShapeMesh}
use intrinsic_moveit.SceneSync.Data.{Config, Data}
use intrinsic_moveit.SceneSync.Fetch.{fetch_and_synchronize_collision_objects}
use intrinsic_moveit.SceneSync.Publish.{add_collision_objects_to_scene, remove_collision_object}
use intrinsic_moveit.SceneSync.Update.{update_collision_objects}
use intrinsic_moveit.SceneSync.Tracking.{on_tf_message}

module _ {W : Type 0} where
  -- Under the lock: the names to fetch, and nothing is asked for any more.
  unfoldable pub take_sync_names : Data W → Data W × Option (List Str)
  take_sync_names s =
      (record s { sync_object_names = none; sync_new_objects = false }, s.sync_object_names)

module _ {W : Type 0} ⦃d : Double W⦄ (world : WorldClient W)
    (create_mesh : List ℕ → Option (ShapeMesh W)) (config : Config W) where
  unfoldable pub add_if_ok :
      Data W × StatusOr (Unit {0}) → Option (List Str) → Data W × List (CollisionObject W)
  add_if_ok (s, err e) names = (s, [])
  add_if_ok (s, ok u) names = (s, add_collision_objects_to_scene create_mesh s names)

  -- A round once the wait is over; `none` when the thread ends.
  unfoldable pub sync_round : Data W → Option (Data W × List (CollisionObject W))
  unfolding add_if_ok
  sync_round s =
      let (taken, names) = take_sync_names s in
      if s.shutdown
      then none
      else some (add_if_ok (fetch_and_synchronize_collision_objects world config taken names) names)

  -- The service: it publishes also after a fetch that failed; the response's `success`.
  succeeds : StatusOr (Unit {0}) → Bool
  succeeds (ok u) = true
  succeeds (err e) = false

  unfoldable pub on_trigger : Data W → Data W × List (CollisionObject W) × Bool
  unfolding succeeds
  on_trigger s =
      let (fetched, status) = fetch_and_synchronize_collision_objects world config s none in
      (fetched, add_collision_objects_to_scene create_mesh fetched none, succeeds status)

  -- fetchAndSynchronizeCollisionObjects of the class.
  unfoldable pub add_after :
      Data W × StatusOr (Unit {0})
      → Option (List Str)
      → Data W × List (CollisionObject W) × StatusOr (Unit {0})
  add_after (s, err e) frames = (s, [], err e)
  add_after (s, ok u) frames = (s, add_collision_objects_to_scene create_mesh s frames, ok tt)

  unfoldable pub fetch_and_synchronize :
      Data W → Option (List Str) → Data W × List (CollisionObject W) × StatusOr (Unit {0})
  unfolding add_after
  fetch_and_synchronize s object_frames =
      add_after (fetch_and_synchronize_collision_objects world config s object_frames) object_frames

pub data Call (W : Type 0) : Type 0 where
  tf_message : ℤ → List (TransformStamped W) → Call W
  take_names : Call W
  fetch : Option (List Str) → Call W
  publish : Option (List Str) → Call W
  remove : Str → Call W
  update : ℤ → List (TransformStamped W) → Call W
  stop : Call W

module _ {W : Type 0} ⦃d : Double W⦄ ⦃m : Cmath W⦄ (world : WorldClient W)
    (create_mesh : List ℕ → Option (ShapeMesh W)) (seconds : ℤ → W) (config : Config W) where
  unfoldable pub step : Data W → Call W → Data W × List (CollisionObject W)
  step s (tf_message t_now message) = on_tf_message seconds config s t_now message
  step s take_names = ((take_sync_names s).0, [])
  step s (fetch names) = ((fetch_and_synchronize_collision_objects world config s names).0, [])
  step s (publish frames) = (s, add_collision_objects_to_scene create_mesh s frames)
  step s (remove frame) =
      (let (s1, removal) = remove_collision_object s frame in (s1, removal ∷ []))
  step s (update t_now transforms) = update_collision_objects seconds config t_now s transforms
  step s stop = (record s { shutdown = true }, [])

  unfoldable pub run : Data W → List (Call W) → Data W
  run s [] = s
  run s (call ∷ calls) = run (step s call).0 calls
