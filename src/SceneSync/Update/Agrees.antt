-- ===== src/SceneSync/Update/Agrees.antt =====
-- States that agree on what decides an update, and that an update of other frames keeps it.
use intrinsic_moveit.Prelude.{
  ℤ, Str, lookup, lookup-insert, insert, Fresh, All, List, [], ◌∷◌, Option, none, some, Bool, true,
  false, ◌≡◌, refl, arith, if◌then◌else◌,
}
use intrinsic_moveit.Double.{Double, Cmath}
use intrinsic_moveit.Messages.{Pose}
use intrinsic_moveit.SceneSync.World.{TransformStamped}
use intrinsic_moveit.SceneSync.Data.{Config, Data}
use intrinsic_moveit.SceneSync.Update.{
  throttled, in_deadband, new_pose, record_published, update_frame,
}

lookups-insert :
    {V : Type 0} (k : Str) (v : V) (m n : List (Str × V)) (rest : List (Str × List Str))
    → Fresh k rest
    → All (λ e. lookup e.0 m ≡ lookup e.0 n) rest
    → All (λ e. lookup e.0 (insert k v m) ≡ lookup e.0 n) rest
lookups-insert k v m n [] f a = tt
lookups-insert k v m n ((j, ids) ∷ rest) f a =
    (ground (arith, lookup-insert k j v m, f.0, a.0), lookups-insert k v m n rest f.1 a.1)

pub either :
    {S A : Type 0} (P : S → Type 0) (a b : Bool) (s u : S) (xs : List A)
    → P s
    → P u
    → P (if◌then◌else◌ {A = S × List A} a (s, []) (if b then (s, []) else (u, xs))).0
either P true b s u xs p q = p
either P false true s u xs p q = p
either P false false s u xs p q = q

module _ {W : Type 0} ⦃d : Double W⦄ ⦃m : Cmath W⦄ (seconds : ℤ → W) (config : Config W)
    (t_now : ℤ) where
  -- The states agree on the shapes and on what was published last for the frames.
  pub record Agrees (s t : Data W) (frames : List (Str × List Str)) : Type 0 where
    pub renderables : t.renderables_collision ≡ s.renderables_collision
    pub primitives : t.primitives_collision ≡ s.primitives_collision
    pub poses : t.relative_mesh_pose ≡ s.relative_mesh_pose
    pub last_poses :
        All
          (λ e.
            lookup e.0 t.last_published_collision_pose ≡ lookup e.0 s.last_published_collision_pose)
          frames
    pub last_times :
        All
          (λ e.
            lookup e.0 t.last_published_collision_time ≡ lookup e.0 s.last_published_collision_time)
          frames

  pub tail :
      (s t : Data W) (frame : Str) (ids : List Str) (rest : List (Str × List Str))
      → Agrees s t ((frame, ids) ∷ rest)
      → Agrees s t rest
  tail s t frame ids rest a = record {
    renderables = a.renderables;
    primitives = a.primitives;
    poses = a.poses;
    last_poses = a.last_poses.1;
    last_times = a.last_times.1;
  }

  record_published-Agrees :
      (s t : Data W) (frame : Str) (pose : Pose W) (rest : List (Str × List Str))
      → Fresh frame rest
      → Agrees s t rest
      → Agrees s (record_published t frame pose t_now) rest
  unfolding record_published
  record_published-Agrees s t frame pose rest f a = record {
    renderables = a.renderables;
    primitives = a.primitives;
    poses = a.poses;
    last_poses = lookups-insert frame pose _ _ rest f a.last_poses;
    last_times = lookups-insert frame t_now _ _ rest f a.last_times;
  }

  pub update_frame-Agrees :
      (s t : Data W) (frame : Str) (ids : List Str) (rest : List (Str × List Str))
      (o : Option (TransformStamped W))
      → Fresh frame rest
      → Agrees s t ((frame, ids) ∷ rest)
      → Agrees s (update_frame seconds config t_now t frame ids o).0 rest
  unfolding update_frame
  update_frame-Agrees s t frame ids rest none f a = tail s t frame ids rest a
  update_frame-Agrees s t frame ids rest (some x) f a =
      either (λ q. Agrees s q rest)
        (throttled seconds config t_now (lookup frame t.last_published_collision_time))
        (in_deadband config (new_pose x) (lookup frame t.last_published_collision_pose)) t
        (record_published t frame (new_pose x) t_now) _ (tail s t frame ids rest a)
        (record_published-Agrees s t frame (new_pose x) rest f (tail s t frame ids rest a))

  All-same :
      {V : Type 0} (m : List (Str × V)) (frames : List (Str × List Str))
      → All (λ e. lookup e.0 m ≡ lookup e.0 m) frames
  All-same m [] = tt
  All-same m (e ∷ es) = (refl, All-same m es)

  pub Agrees-refl : (s : Data W) (frames : List (Str × List Str)) → Agrees s s frames
  Agrees-refl s frames = record {
    renderables = refl;
    primitives = refl;
    poses = refl;
    last_poses = All-same _ _;
    last_times = All-same _ _;
  }
