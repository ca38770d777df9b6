-- ===== src/SceneSync/Update/Records.antt =====
-- What updateCollisionObjects records for the tracked frames.
use intrinsic_moveit.Prelude.{
  ℤ, ◌∙◌, Str, str_eq, find?, lookup, lookup-insert, Unique, Fresh, All, List, [], ◌∷◌, Option,
  none, some, Bool, true, false, not, ◌&&◌, ◌≡◌, refl, arith, if◌then◌else◌, str_eq_iff, ap,
}
use intrinsic_moveit.Double.{Double, Cmath}
use intrinsic_moveit.Messages.{Pose}
use intrinsic_moveit.SceneSync.World.{TransformStamped}
use intrinsic_moveit.SceneSync.Data.{Config, Data}
use intrinsic_moveit.SceneSync.Update.Due.{
  is_due, pose_after, time_after, record_after, throttled-has_waited, in_deadband-has_moved,
}
use intrinsic_moveit.SceneSync.Update.Agrees.{either, Agrees, update_frame-Agrees}
use intrinsic_moveit.SceneSync.Update.{
  throttled, in_deadband, new_pose, moved_object, record_published, update_frame, update_frames,
}

state_of :
    {S A : Type 0} (a b : Bool) (s u : S) (xs : List A)
    → (if◌then◌else◌ {A = S × List A} a (s, []) (if b then (s, []) else (u, xs))).0
      ≡ (if not a && not b then u else s)
state_of true b s u xs = refl
state_of false true s u xs = refl
state_of false false s u xs = refl

module _ {W : Type 0} ⦃d : Double W⦄ ⦃m : Cmath W⦄ (seconds : ℤ → W) (config : Config W)
    (t_now : ℤ) where
  -- The state holds the old record of a frame, or the new one.
  record Holds (t u : Data W) (frame : Str) : Type 0 where
    pose :
        lookup frame u.last_published_collision_pose ≡ lookup frame t.last_published_collision_pose
    time :
        lookup frame u.last_published_collision_time ≡ lookup frame t.last_published_collision_time

  update_frame-Holds :
      (t : Data W) (frame other : Str) (ids : List Str) (o : Option (TransformStamped W))
      → str_eq frame other ≡ false
      → Holds t (update_frame seconds config t_now t other ids o).0 frame
  unfolding update_frame record_published
  update_frame-Holds t frame other ids none n = record { pose = refl; time = refl }
  update_frame-Holds t frame other ids (some x) n =
      either (λ u. Holds t u frame)
        (throttled seconds config t_now (lookup other t.last_published_collision_time))
        (in_deadband config (new_pose x) (lookup other t.last_published_collision_pose)) t
        (record_published t other (new_pose x) t_now) _ (record { pose = refl; time = refl })
        (record {
          pose = ground (
            arith,
            lookup-insert other frame (new_pose x) t.last_published_collision_pose,
            str_eq_iff other frame,
            str_eq_iff frame other,
          );
          time = ground (
            arith,
            lookup-insert other frame t_now t.last_published_collision_time,
            str_eq_iff other frame,
            str_eq_iff frame other,
          );
        })

  -- The records of a frame that is not among the others stay.
  update_frames-Holds :
      (transforms : List (TransformStamped W)) (frame : Str) (rest : List (Str × List Str))
      (t : Data W)
      → Fresh frame rest
      → Holds t (update_frames seconds config t_now transforms t rest).0 frame
  unfolding update_frames
  update_frames-Holds transforms frame [] t f = record { pose = refl; time = refl }
  update_frames-Holds transforms frame ((other, ids) ∷ rest) t f =
      let o = find? (λ (x : TransformStamped W). str_eq x.child_frame_id other) transforms in
      let h = update_frame-Holds t frame other ids o f.0 in
      let k = update_frames-Holds transforms frame rest _ f.1 in
      record { pose = k.pose ∙ h.pose; time = k.time ∙ h.time }

  -- The state after the move of a frame, if it is due.
  abbrev after_move : Bool → Data W → Str → Pose W → Data W
  after_move due t frame pose = if due then record_published t frame pose t_now else t

  update_frame-after_move :
      (s t : Data W) (frame : Str) (ids : List Str) (rest : List (Str × List Str))
      (x : TransformStamped W)
      → Agrees seconds config t_now s t ((frame, ids) ∷ rest)
      → (update_frame seconds config t_now t frame ids (some x)).0
        ≡ after_move (is_due seconds config t_now s frame x) t frame (new_pose x)
  unfolding update_frame new_pose
  update_frame-after_move s t frame ids rest x a =
      state_of (throttled seconds config t_now (lookup frame t.last_published_collision_time))
        (in_deadband config (new_pose x) (lookup frame t.last_published_collision_pose)) t
        (record_published t frame (new_pose x) t_now) (moved_object t frame ids x ∷ [])
      ∙ rw
          (
            throttled-has_waited seconds config t_now
                (lookup frame t.last_published_collision_time),
            in_deadband-has_moved seconds config t_now _
                (lookup frame t.last_published_collision_pose),
            a.last_times.0,
            a.last_poses.0,
          )
          refl

  after_move-records :
      (due : Bool) (t : Data W) (frame : Str) (pose : Pose W)
      → (lookup frame (after_move due t frame pose).last_published_collision_pose
          ≡ record_after due pose (lookup frame t.last_published_collision_pose))
        × (lookup frame (after_move due t frame pose).last_published_collision_time
            ≡ record_after due t_now (lookup frame t.last_published_collision_time))
  unfolding record_published
  after_move-records true t frame pose = (
    ground (
      arith,
      lookup-insert frame frame pose t.last_published_collision_pose,
      str_eq_iff frame frame,
    ),
    ground (
      arith,
      lookup-insert frame frame t_now t.last_published_collision_time,
      str_eq_iff frame frame,
    ),
  )
  after_move-records false t frame pose = (refl, refl)

  -- What the state `u` has recorded for a frame is what is to be recorded from the state `s`.
  pub record IsRecorded (s u : Data W) (transforms : List (TransformStamped W)) (frame : Str)
      : Type 0 where
    pub pose :
        lookup frame u.last_published_collision_pose
        ≡ pose_after seconds config t_now s frame
            (find? (λ x. str_eq x.child_frame_id frame) transforms)
    pub time :
        lookup frame u.last_published_collision_time
        ≡ time_after seconds config t_now s frame
            (find? (λ x. str_eq x.child_frame_id frame) transforms)

  update_frame-records :
      (s t : Data W) (frame : Str) (ids : List Str) (rest : List (Str × List Str))
      (o : Option (TransformStamped W))
      → Agrees seconds config t_now s t ((frame, ids) ∷ rest)
      → (lookup frame
            (update_frame seconds config t_now t frame ids o).0.last_published_collision_pose
          ≡ pose_after seconds config t_now s frame o)
        × (lookup frame
              (update_frame seconds config t_now t frame ids o).0.last_published_collision_time
            ≡ time_after seconds config t_now s frame o)
  unfolding update_frame new_pose
  update_frame-records s t frame ids rest none a = (a.last_poses.0, a.last_times.0)
  update_frame-records s t frame ids rest (some x) a =
      let due = is_due seconds config t_now s frame x in
      let state = update_frame-after_move s t frame ids rest x a in
      let r = after_move-records due t frame (new_pose x) in
      (
        ap (λ (u : Data W). lookup frame u.last_published_collision_pose) state
            ∙ r.0
            ∙ ap (record_after due (new_pose x)) a.last_poses.0,
        ap (λ (u : Data W). lookup frame u.last_published_collision_time) state
            ∙ r.1
            ∙ ap (record_after due t_now) a.last_times.0,
      )

  pub update_frames-IsRecorded :
      (transforms : List (TransformStamped W)) (s : Data W) (frames : List (Str × List Str))
      (t : Data W)
      → Unique frames
      → Agrees seconds config t_now s t frames
      → All
          (λ e.
            IsRecorded s (update_frames seconds config t_now transforms t frames).0 transforms e.0)
          frames
  unfolding update_frames
  update_frames-IsRecorded transforms s [] t u a = tt
  update_frames-IsRecorded transforms s ((frame, ids) ∷ rest) t u a =
      let o = find? (λ (x : TransformStamped W). str_eq x.child_frame_id frame) transforms in
      let h = update_frames-Holds transforms frame rest _ u.0 in
      let r = update_frame-records s t frame ids rest o a in
      (
        record { pose = h.pose ∙ r.0; time = h.time ∙ r.1 },
        update_frames-IsRecorded transforms s rest _ u.1
            (update_frame-Agrees seconds config t_now s t frame ids rest o u.0 a),
      )
