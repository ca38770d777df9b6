-- ===== src/SceneSync/Update.antt =====
-- moveit_planning_service/src/moveit_scene_synchronizer.cpp: updateCollisionObjects. `seconds` is
-- the `seconds()` of a difference of two rclcpp::Time.
pub mod Due
pub mod Agrees
pub mod Records
pub mod Laws
use intrinsic_moveit.Prelude.{
  ℤ, ◌-ℤ◌, Str, str_eq, find?, contains, lookup, insert, List, [], ◌∷◌, ◌++◌, Option, none, some,
  Bool, true, false, ◌&&◌, if◌then◌else◌,
}
use intrinsic_moveit.Double.{Double, Cmath, is_pos, min_double}
use intrinsic_moveit.Messages.{Pose}
use intrinsic_moveit.SceneSync.World.{CollisionObject, move_operation, TransformStamped}
use intrinsic_moveit.SceneSync.Data.{Config, Data}

module _ {W : Type 0} ⦃d : Double W⦄ ⦃m : Cmath W⦄ where
  unfoldable pub pos_delta : Pose W → Pose W → W
  pos_delta old new =
      let dx = d.sub new.position.x old.position.x in
      let dy = d.sub new.position.y old.position.y in
      let dz = d.sub new.position.z old.position.z in
      m.sqrt (d.add (d.add (d.mul dx dx) (d.mul dy dy)) (d.mul dz dz))

  unfoldable pub rot_delta : Pose W → Pose W → W
  rot_delta old new =
      let q1 = old.orientation in
      let q2 = new.orientation in
      let ww = d.mul q1.w q2.w in
      let xx = d.mul q1.x q2.x in
      let yy = d.mul q1.y q2.y in
      let zz = d.mul q1.z q2.z in
      let dot = min_double (d.ratio 1 1) (m.abs (d.add (d.add (d.add ww xx) yy) zz)) in
      d.mul (d.ratio 2 1) (m.acos dot)

  -- The update comes too soon after the last one.
  unfoldable pub throttled : (ℤ → W) → Config W → ℤ → Option ℤ → Bool
  throttled seconds config t_now none = false
  throttled seconds config t_now (some last) =
      let rate = config.collision_objects_update_rate_hz in
      is_pos rate && d.lt (seconds (t_now -ℤ last)) (d.div (d.ratio 1 1) rate)

  -- The pose is near the one published last.
  unfoldable pub in_deadband : Config W → Pose W → Option (Pose W) → Bool
  in_deadband config new none = false
  in_deadband config new (some old) =
      d.lt (pos_delta old new) config.collision_objects_min_position_delta
      && d.lt (rot_delta old new) config.collision_objects_min_rotation_delta

module _ {W : Type 0} where
  -- The poses of the meshes, and those of the primitives.
  unfoldable pub add_pose :
      Bool → Bool → Option (Pose W) → List (Pose W) × List (Pose W) → List (Pose W) × List (Pose W)
  add_pose renderable primitive none poses = poses
  add_pose true primitive (some pose) (meshes, primitives) = (pose ∷ meshes, primitives)
  add_pose false true (some pose) (meshes, primitives) = (meshes, pose ∷ primitives)
  add_pose false false (some pose) poses = poses

  unfoldable pub shape_poses : Data W → List Str → List (Pose W) × List (Pose W)
  unfolding add_pose
  shape_poses s [] = ([], [])
  shape_poses s (id ∷ ids) =
      add_pose (contains id s.renderables_collision) (contains id s.primitives_collision)
        (lookup id s.relative_mesh_pose) (shape_poses s ids)

  unfoldable pub new_pose : TransformStamped W → Pose W
  new_pose transform = record { position = transform.translation; orientation = transform.rotation }

  unfoldable pub moved_object : Data W → Str → List Str → TransformStamped W → CollisionObject W
  moved_object s frame ids transform =
      let poses = shape_poses s ids in
      record {
        operation = move_operation;
        frame_id = transform.frame_id;
        id = frame;
        pose = some (new_pose transform);
        meshes = [];
        mesh_poses = poses.0;
        primitives = [];
        primitive_poses = poses.1;
      }

  unfoldable pub record_published : Data W → Str → Pose W → ℤ → Data W
  record_published s frame pose t_now = record s {
    last_published_collision_pose = insert frame pose s.last_published_collision_pose;
    last_published_collision_time = insert frame t_now s.last_published_collision_time;
  }

module _ {W : Type 0} ⦃d : Double W⦄ ⦃m : Cmath W⦄ (seconds : ℤ → W) (config : Config W)
    (t_now : ℤ) where
  -- The first transform of the frame, if there is one, decides.
  unfoldable pub update_frame :
      Data W → Str → List Str → Option (TransformStamped W) → Data W × List (CollisionObject W)
  update_frame s frame ids none = (s, [])
  update_frame s frame ids (some transform) =
      if throttled seconds config t_now (lookup frame s.last_published_collision_time)
      then (s, [])
      else if in_deadband config (new_pose transform) (lookup frame s.last_published_collision_pose)
      then (s, [])
      else (
        record_published s frame (new_pose transform) t_now,
        moved_object s frame ids transform ∷ [],
      )

  unfoldable pub update_frames :
      List (TransformStamped W) → Data W → List (Str × List Str) → Data W × List (CollisionObject W)
  update_frames transforms s [] = (s, [])
  update_frames transforms s ((frame, ids) ∷ rest) =
      let (s1, published) =
        update_frame s frame ids (find? (λ t. str_eq t.child_frame_id frame) transforms) in
      let (s2, more) = update_frames transforms s1 rest in (s2, published ++ more)

  unfoldable pub update_collision_objects :
      Data W → List (TransformStamped W) → Data W × List (CollisionObject W)
  update_collision_objects s transforms =
      update_frames transforms s s.collision_tf_frame_to_mesh_ids
