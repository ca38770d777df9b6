-- ===== src/SceneSync/Update/Due.antt =====
-- Which moves updateCollisionObjects is to publish and to record, described without its state.
use intrinsic_moveit.Prelude.{
  contains, ℤ, ◌-ℤ◌, ◌||◌, Str, str_eq, find?, lookup, List, [], ◌∷◌, ◌++◌, Option, none, some,
  Bool, true, false, not, ◌&&◌, ◌≡◌, refl, arith, if◌then◌else◌,
}
use intrinsic_moveit.Double.{Double, Cmath, nought}
use intrinsic_moveit.Messages.{Pose, Vector3, Quaternion}
use intrinsic_moveit.SceneSync.World.{CollisionObject, move_operation, TransformStamped}
use intrinsic_moveit.SceneSync.Data.{Config, Data}
use intrinsic_moveit.SceneSync.Poses.{is_mesh, is_primitive, pose_if, poses_where}
use intrinsic_moveit.SceneSync.Update.{
  pos_delta, rot_delta, add_pose, throttled, in_deadband, shape_poses,
}

add_pose-where :
    {W : Type 0} (renderable primitive : Bool) (o : Option (Pose W)) (ms ps : List (Pose W))
    → add_pose renderable primitive o (ms, ps)
      ≡ (pose_if renderable o ms, pose_if (not renderable && primitive) o ps)
unfolding add_pose
add_pose-where false false none ms ps = refl
add_pose-where false true none ms ps = refl
add_pose-where true primitive none ms ps = refl
add_pose-where true primitive (some pose) ms ps = refl
add_pose-where false true (some pose) ms ps = refl
add_pose-where false false (some pose) ms ps = refl

pub shape_poses-where :
    {W : Type 0} (s : Data W) (ids : List Str)
    → shape_poses s ids ≡ (poses_where (is_mesh s) s ids, poses_where (is_primitive s) s ids)
unfolding shape_poses
shape_poses-where s [] = refl
shape_poses-where s (id ∷ ids) = rw (shape_poses-where s ids) (
    add_pose-where (contains id s.renderables_collision) (contains id s.primitives_collision)
      (lookup id s.relative_mesh_pose) (poses_where (is_mesh s) s ids)
      (poses_where (is_primitive s) s ids))

-- The new value if it is due, or else the old one.
abbrev pub record_after : {A : Type 0} → Bool → A → Option A → Option A
record_after due new old = if due then some new else old

module _ {W : Type 0} ⦃d : Double W⦄ ⦃m : Cmath W⦄ where
  -- The Euclidean distance of two points.
  abbrev pub square_of_difference : W → W → W
  square_of_difference x y = d.mul (d.sub y x) (d.sub y x)

  abbrev pub distance : Vector3 W → Vector3 W → W
  distance p q = m.sqrt (
      d.add (d.add (square_of_difference p.x q.x) (square_of_difference p.y q.y))
        (square_of_difference p.z q.z))

  -- The angle between two orientations: twice the arc cosine of their inner product's absolute value,
  -- which is cut at one.
  abbrev pub inner_product : Quaternion W → Quaternion W → W
  inner_product p q =
      d.add (d.add (d.add (d.mul p.w q.w) (d.mul p.x q.x)) (d.mul p.y q.y)) (d.mul p.z q.z)

  abbrev pub angle : Quaternion W → Quaternion W → W
  angle p q =
      let cosine = m.abs (inner_product p q) in
      d.mul (d.ratio 2 1) (m.acos (if d.lt cosine (d.ratio 1 1) then cosine else d.ratio 1 1))

module _ {W : Type 0} ⦃d : Double W⦄ ⦃m : Cmath W⦄ (seconds : ℤ → W) (config : Config W)
    (t_now : ℤ) where
  -- There is no last publication, no rate is set, or a period of the rate has passed since.
  abbrev pub has_waited : Option ℤ → Bool
  has_waited none = true
  has_waited (some last) =
      let rate = config.collision_objects_update_rate_hz in
      not (d.lt nought rate) || not (d.lt (seconds (t_now -ℤ last)) (d.div (d.ratio 1 1) rate))

  -- There is no last pose, or it is as far away as one of the two minimal deltas.
  abbrev pub has_moved : Pose W → Option (Pose W) → Bool
  has_moved new none = true
  has_moved new (some old) =
      not (d.lt (distance old.position new.position) config.collision_objects_min_position_delta)
      || not
          (d.lt (angle old.orientation new.orientation) config.collision_objects_min_rotation_delta)

  abbrev pub is_due : Data W → Str → TransformStamped W → Bool
  is_due s frame x =
      has_waited (lookup frame s.last_published_collision_time)
      && has_moved (record { position = x.translation; orientation = x.rotation })
          (lookup frame s.last_published_collision_pose)

  -- The move of a frame to a transform: the frame's pose, with the relative poses of its meshes and
  -- primitives.
  abbrev pub move_to : Data W → Str → List Str → TransformStamped W → CollisionObject W
  move_to s frame ids x = record {
    operation = move_operation;
    frame_id = x.frame_id;
    id = frame;
    pose = some (record { position = x.translation; orientation = x.rotation });
    meshes = [];
    mesh_poses = poses_where (is_mesh s) s ids;
    primitives = [];
    primitive_poses = poses_where (is_primitive s) s ids;
  }

  abbrev pub due_move :
      Data W → Str → List Str → Option (TransformStamped W) → List (CollisionObject W)
  due_move s frame ids none = []
  due_move s frame ids (some x) = if is_due s frame x then move_to s frame ids x ∷ [] else []

  pub throttled-has_waited :
      (last : Option ℤ) → not (throttled seconds config t_now last) ≡ has_waited last
  unfolding throttled
  throttled-has_waited none = refl
  throttled-has_waited (some last) = ground arith

  pub in_deadband-has_moved :
      (new : Pose W) (old : Option (Pose W)) → not (in_deadband config new old) ≡ has_moved new old
  unfolding in_deadband pos_delta rot_delta
  in_deadband-has_moved new none = refl
  in_deadband-has_moved new (some old) = ground arith

  -- The moves that are due in the state `s`, in the order of the frames.
  abbrev pub due_moves :
      Data W → List (TransformStamped W) → List (Str × List Str) → List (CollisionObject W)
  due_moves s transforms [] = []
  due_moves s transforms ((frame, ids) ∷ rest) =
      due_move s frame ids (find? (λ t. str_eq t.child_frame_id frame) transforms)
      ++ due_moves s transforms rest

  -- What was recorded last for a frame, once these transforms have come.
  abbrev pub pose_after : Data W → Str → Option (TransformStamped W) → Option (Pose W)
  pose_after s frame none = lookup frame s.last_published_collision_pose
  pose_after s frame (some x) =
      record_after (is_due s frame x)
        (record { position = x.translation; orientation = x.rotation })
        (lookup frame s.last_published_collision_pose)

  abbrev pub time_after : Data W → Str → Option (TransformStamped W) → Option ℤ
  time_after s frame none = lookup frame s.last_published_collision_time
  time_after s frame (some x) =
      record_after (is_due s frame x) t_now (lookup frame s.last_published_collision_time)
