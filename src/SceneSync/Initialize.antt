-- ===== src/SceneSync/Initialize.antt =====
-- moveit_planning_service/src/moveit_scene_synchronizer.cpp: initialize and the destructor of
-- MoveitSceneSynchronizer, with what they start and end besides the state in Data.
use intrinsic_moveit.Double.{Double}
use intrinsic_moveit.SceneSync.World.{WorldClient, ShapeMesh}
use intrinsic_moveit.SceneSync.Run.{sync_round, take_sync_names}
use intrinsic_moveit.SceneSync.Wait.{wait_over}
use intrinsic_moveit.Prelude.{
  ℕ, List, ◌≡◌, refl, arith, Option, none, some, Bool, true, false, ◌&&◌, if◌then◌else◌,
}
use intrinsic_moveit.SceneSync.Data.{Config, Data, initial}

pub record Synchronizer (W : Type 0) : Type 0 where
  pub data_of : Data W
  -- The configuration that is unpacked into the data, if it is.
  pub config : Option (Config W)
  -- The service ~/sync_collision_objects and the publisher of collision objects.
  pub has_service : Bool
  pub has_publisher : Bool
  pub has_tf_subscription : Bool
  pub has_sync_thread : Bool

unfoldable pub new_synchronizer : {W : Type 0} → Synchronizer W
new_synchronizer = record {
  data_of = initial;
  config = none;
  has_service = false;
  has_publisher = false;
  has_tf_subscription = false;
  has_sync_thread = false;
}

module _ {W : Type 0} where
  -- `subscribes` is whether the subscription to the World TF is created.
  unfoldable pub initialize : Bool → Bool → Bool → Config W → Synchronizer W → Bool × Synchronizer W
  initialize has_node has_world subscribes config s =
      let served : Synchronizer W = record s {
        config = some config;
        has_service = true;
        has_publisher = true;
      } in
      if has_node && has_world
      then (if subscribes
          then (true, record served { has_tf_subscription = true; has_sync_thread = true })
          else (false, served))
      else (false, s)

  -- The thread is told to end before it is joined.
  unfoldable pub destroy : Synchronizer W → Synchronizer W
  destroy s =
      if s.has_sync_thread
      then record s { data_of = record s.data_of { shutdown = true }; has_sync_thread = false }
      else s

module _ {W : Type 0} ⦃d : Double W⦄ (world : WorldClient W)
    (create_mesh : List ℕ → Option (ShapeMesh W)) (config : Config W) where
  -- A destroyed synchronizer does not wait for its thread for ever: the wait of the thread is over,
  -- and its round ends it.
  pub destroy-ends :
      (s : Synchronizer W) (timed_out : Bool)
      → s.has_sync_thread ≡ true
      → (wait_over config timed_out (destroy s).data_of ≡ true)
        × (sync_round world create_mesh config (destroy s).data_of ≡ none)
  unfolding destroy wait_over sync_round take_sync_names
  destroy-ends s timed_out h = rw h (ground arith, refl)
