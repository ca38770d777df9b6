-- ===== src/SceneSync/Data.antt =====
-- moveit_planning_service/src/moveit_scene_synchronizer.cpp: MoveitSceneSynchronizer::Data, the
-- configuration, and StripTfPrefixes. A set is the list of its members.
use intrinsic_moveit.Prelude.{
  ℕ, ℤ, Str, is_empty, length, drop, starts_with, mem_str, not, ◌&&◌, List, [], ◌∷◌, Option, none,
  Dict, Bool, true, false, if◌then◌else◌,
}
use intrinsic_moveit.Messages.{Pose}
use intrinsic_moveit.SceneSync.World.{SolidPrimitive}

pub record Config (W : Type 0) : Type 0 where
  pub tf_prefix : Str
  pub strip_tf_prefixes : List Str
  pub excluded_collision_namespaces : List Str
  pub collision_objects_update_rate_hz : W
  pub collision_objects_min_position_delta : W
  pub collision_objects_min_rotation_delta : W
  pub world_sync_interval_sec : W

pub record Data (W : Type 0) : Type 0 where
  pub renderables_collision : Dict (List ℕ)
  pub primitives_collision : Dict (SolidPrimitive W)
  pub collision_tf_frame_to_mesh_ids : Dict (List Str)
  pub relative_mesh_pose : Dict (Pose W)
  pub tf_frame_names : List Str
  pub sync_object_names : Option (List Str)
  pub sync_new_objects : Bool
  pub shutdown : Bool
  pub last_published_collision_pose : Dict (Pose W)
  -- rclcpp::Time in nanoseconds
  pub last_published_collision_time : Dict ℤ

-- `set.insert(x)`
abbrev pub insert_set : Str → List Str → List Str
insert_set x xs = if mem_str x xs then xs else x ∷ xs

unfoldable pub strip_tf_prefixes : Str → List Str → Str
strip_tf_prefixes frame [] = frame
strip_tf_prefixes frame (prefix ∷ rest) =
    if not (is_empty prefix) && starts_with frame prefix
    then drop (length prefix) frame
    else strip_tf_prefixes frame rest

unfoldable pub tracked_count : {W : Type 0} → Data W → ℕ
tracked_count s = length s.collision_tf_frame_to_mesh_ids

-- The state of a synchronizer that was made just now.
unfoldable pub initial : {W : Type 0} → Data W
initial = record {
  renderables_collision = [];
  primitives_collision = [];
  collision_tf_frame_to_mesh_ids = [];
  relative_mesh_pose = [];
  tf_frame_names = [];
  sync_object_names = none;
  sync_new_objects = true;
  shutdown = false;
  last_published_collision_pose = [];
  last_published_collision_time = [];
}
