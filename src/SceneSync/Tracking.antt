-- ===== src/SceneSync/Tracking.antt =====
-- moveit_planning_service/src/moveit_scene_synchronizer.cpp: the callback of the TF subscription in
-- initialize, which finds new and deleted frames and moves the tracked ones.
pub mod Keeps
use intrinsic_moveit.Prelude.{
  ℤ, Str, slash, take_until, mem_str, is_empty, List, [], ◌∷◌, ◌++◌, Option, none, some, true,
  if◌then◌else◌,
}
use intrinsic_moveit.Double.{Double, Cmath}
use intrinsic_moveit.SceneSync.World.{CollisionObject, TransformStamped}
use intrinsic_moveit.SceneSync.Data.{Config, Data, insert_set, strip_tf_prefixes}
use intrinsic_moveit.SceneSync.Publish.{remove_collision_object}
use intrinsic_moveit.SceneSync.Update.{update_collision_objects}

-- What the loop over the transforms of a message finds.
pub record Found (W : Type 0) : Type 0 where
  pub transforms : List (TransformStamped W)
  pub new_tf_frame_names : List Str
  pub new_object_names : List Str

module _ {W : Type 0} (config : Config W) where
  unfoldable pub to_ros : TransformStamped W → TransformStamped W
  to_ros t = record t {
    frame_id = config.tf_prefix ++ strip_tf_prefixes t.frame_id config.strip_tf_prefixes;
    child_frame_id =
        config.tf_prefix ++ strip_tf_prefixes t.child_frame_id config.strip_tf_prefixes;
  }

  -- The object's name is the child frame up to the first slash, without the prefix.
  unfoldable pub object_name_of : TransformStamped W → Str
  object_name_of t = take_until slash (strip_tf_prefixes t.child_frame_id config.strip_tf_prefixes)

  unfoldable pub find_frames : List Str → Found W → List (TransformStamped W) → Found W
  unfolding object_name_of
  find_frames known found [] = found
  find_frames known found (t ∷ rest) =
      let ros = to_ros t in
      find_frames known
        (record {
          transforms = found.transforms ++ (ros ∷ []);
          new_tf_frame_names = insert_set ros.child_frame_id found.new_tf_frame_names;
          new_object_names =
              if mem_str ros.child_frame_id known
              then found.new_object_names
              else insert_set (object_name_of t) found.new_object_names;
        })
        rest

unfoldable pub appended : Option (List Str) → List Str → List Str
appended none names = names
appended (some old) names = old ++ names

module _ {W : Type 0} where
  -- The frames that are gone are removed.
  unfoldable pub remove_deleted : List Str → Data W → List Str → Data W × List (CollisionObject W)
  remove_deleted new_names s [] = (s, [])
  remove_deleted new_names s (frame ∷ rest) =
      let (s1, removal) = remove_collision_object s frame in
      if mem_str frame new_names
      then remove_deleted new_names s rest
      else (let (s2, more) = remove_deleted new_names s1 rest in (s2, removal ∷ more))

  unfoldable pub request_sync : Data W → List Str → Data W
  unfolding appended
  request_sync s names = if is_empty names then s else record s {
    sync_object_names = some (appended s.sync_object_names names);
    sync_new_objects = true;
  }

module _ {W : Type 0} ⦃d : Double W⦄ ⦃m : Cmath W⦄ (seconds : ℤ → W) (config : Config W) where
  unfoldable pub on_tf_message :
      Data W → ℤ → List (TransformStamped W) → Data W × List (CollisionObject W)
  on_tf_message s t_now message =
      let start : Found W = record {
        transforms = [];
        new_tf_frame_names = [];
        new_object_names = [];
      } in
      let found = find_frames config s.tf_frame_names start message in
      let (s1, removed) = remove_deleted found.new_tf_frame_names s s.tf_frame_names in
      let s2 = request_sync s1 found.new_object_names in
      let s3 : Data W = record s2 { tf_frame_names = found.new_tf_frame_names } in
      let (s4, moved) = update_collision_objects seconds config t_now s3 found.transforms in
      (s4, removed ++ moved)
