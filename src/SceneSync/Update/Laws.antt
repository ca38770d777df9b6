-- ===== src/SceneSync/Update/Laws.antt =====
-- What updateCollisionObjects publishes and records.
use intrinsic_moveit.Prelude.{
  ℤ, ◌∙◌, Str, str_eq, find?, lookup, Unique, All, List, [], ◌∷◌, Option, none, some, Bool, true,
  false, not, ◌&&◌, ◌≡◌, refl, if◌then◌else◌,
}
use intrinsic_moveit.Double.{Double, Cmath}
use intrinsic_moveit.SceneSync.World.{TransformStamped}
use intrinsic_moveit.SceneSync.Data.{Config, Data}
use intrinsic_moveit.SceneSync.Update.Due.{
  due_move, due_moves, move_to, throttled-has_waited, in_deadband-has_moved, shape_poses-where,
}
use intrinsic_moveit.SceneSync.Update.Agrees.{Agrees, update_frame-Agrees, Agrees-refl}
use intrinsic_moveit.SceneSync.Update.Records.{IsRecorded, update_frames-IsRecorded}
use intrinsic_moveit.SceneSync.Update.{
  throttled, in_deadband, shape_poses, new_pose, moved_object, record_published, update_frame,
  update_frames, update_collision_objects,
}

pick :
    {S A : Type 0} (a b : Bool) (s u : S) (xs : List A)
    → (if◌then◌else◌ {A = S × List A} a (s, []) (if b then (s, []) else (u, xs))).1
      ≡ (if not a && not b then xs else [])
pick true b s u xs = refl
pick false true s u xs = refl
pick false false s u xs = refl

module _ {W : Type 0} ⦃d : Double W⦄ ⦃m : Cmath W⦄ (seconds : ℤ → W) (config : Config W)
    (t_now : ℤ) where
  shape_poses-same :
      (s t : Data W) (frames : List (Str × List Str)) (ids : List Str)
      → Agrees seconds config t_now s t frames
      → shape_poses t ids ≡ shape_poses s ids
  unfolding shape_poses
  shape_poses-same s t frames [] a = refl
  shape_poses-same s t frames (id ∷ ids) a =
      rw (a.renderables, a.primitives, a.poses, shape_poses-same s t frames ids a) refl

  moved_object-move_to :
      (s t : Data W) (frame : Str) (ids : List Str) (rest : List (Str × List Str))
      (x : TransformStamped W)
      → Agrees seconds config t_now s t rest
      → moved_object t frame ids x ≡ move_to seconds config t_now s frame ids x
  unfolding moved_object new_pose
  moved_object-move_to s t frame ids rest x a =
      rw (shape_poses-same s t rest ids a, shape_poses-where s ids) refl

  update_frame-due :
      (s t : Data W) (frame : Str) (ids : List Str) (rest : List (Str × List Str))
      (o : Option (TransformStamped W))
      → Agrees seconds config t_now s t ((frame, ids) ∷ rest)
      → (update_frame seconds config t_now t frame ids o).1
        ≡ due_move seconds config t_now s frame ids o
  unfolding update_frame new_pose
  update_frame-due s t frame ids rest none a = refl
  update_frame-due s t frame ids rest (some x) a =
      pick (throttled seconds config t_now (lookup frame t.last_published_collision_time))
        (in_deadband config (new_pose x) (lookup frame t.last_published_collision_pose)) t
        (record_published t frame (new_pose x) t_now) (moved_object t frame ids x ∷ [])
      ∙ rw
          (
            throttled-has_waited seconds config t_now
                (lookup frame t.last_published_collision_time),
            in_deadband-has_moved seconds config t_now _
                (lookup frame t.last_published_collision_pose),
            a.last_times.0,
            a.last_poses.0,
            moved_object-move_to s t frame ids _ x a,
          )
          refl

  update_frames-due :
      (transforms : List (TransformStamped W)) (s : Data W) (frames : List (Str × List Str))
      (t : Data W)
      → Unique frames
      → Agrees seconds config t_now s t frames
      → (update_frames seconds config t_now transforms t frames).1
        ≡ due_moves seconds config t_now s transforms frames
  unfolding update_frames
  update_frames-due transforms s [] t u a = refl
  update_frames-due transforms s ((frame, ids) ∷ rest) t u a =
      let o = find? (λ (x : TransformStamped W). str_eq x.child_frame_id frame) transforms in
      rw
        (
          update_frame-due s t frame ids rest o a,
          update_frames-due transforms s rest _ u.1
              (update_frame-Agrees seconds config t_now s t frame ids rest o u.0 a),
        )
        refl

  -- If no frame is tracked twice, an update publishes, in the order of the tracked frames, the move
  -- of each frame that has a transform in the list, was not published within a period of the update
  -- rate, if one is set, and has moved or turned by its minimal delta since; and nothing else. The
  -- distance is the Euclidean one, the turn is twice the arc cosine of the inner product of the
  -- orientations, and the move comes with the relative poses of the frame's meshes and primitives.
  -- For each tracked frame that is moved the new pose and the time are recorded; the records of the
  -- other tracked frames stay.
  pub update_collision_objects-due :
      (s : Data W) (transforms : List (TransformStamped W))
      → Unique s.collision_tf_frame_to_mesh_ids
      → ((update_collision_objects seconds config t_now s transforms).1
          ≡ due_moves seconds config t_now s transforms s.collision_tf_frame_to_mesh_ids)
        × All
            (λ e.
              IsRecorded seconds config t_now s
                (update_collision_objects seconds config t_now s transforms).0
                transforms
                e.0)
            s.collision_tf_frame_to_mesh_ids
  unfolding update_collision_objects
  update_collision_objects-due s transforms u =
      let a = Agrees-refl seconds config t_now s s.collision_tf_frame_to_mesh_ids in
      (
        update_frames-due transforms s s.collision_tf_frame_to_mesh_ids s u a,
        update_frames-IsRecorded seconds config t_now transforms s s.collision_tf_frame_to_mesh_ids
            s u a,
      )
