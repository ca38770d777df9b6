-- ===== src/SceneSync/Run/Laws.antt =====
-- The invariant of the tracked meshes over every sequence of calls.
use intrinsic_moveit.Prelude.{
  Unique, Unique-erase, StatusOr, ok, err, none, some, All-append, has_byte-take_until, has_byte,
  slash, ℕ, ℤ, Str, mem_str, lookup, erase, lookup-erase, All-imp, List, [], ◌∷◌, Option, none,
  some, Bool-cases, ◌≡◌, refl, arith, inl, inr, false, subst, sym, ap, ◌∙◌,
}
use intrinsic_moveit.Double.{Double, Cmath}
use intrinsic_moveit.SceneSync.World.{WorldClient, ShapeMesh, TransformStamped}
use intrinsic_moveit.SceneSync.Data.{Config, Data, initial}
use intrinsic_moveit.SceneSync.Fetch.Laws.{fetch-IsTracked}
use intrinsic_moveit.SceneSync.Tracking.Keeps.{remove_deleted-keeps, update_frames-keeps}
use intrinsic_moveit.SceneSync.Publish.{remove_collision_object}
use intrinsic_moveit.SceneSync.Update.{update_frames, update_collision_objects, record_published}
use intrinsic_moveit.SceneSync.Tracking.{
  to_ros, object_name_of, appended, find_frames, remove_deleted, request_sync, on_tf_message, Found,
}
use intrinsic_moveit.SceneSync.Publish.Laws.{add_collision_objects_to_scene-named}
use intrinsic_moveit.SceneSync.Fetch.{fetch_and_synchronize_collision_objects}
use intrinsic_moveit.SceneSync.Run.{
  sync_round, sync_round, add_if_ok, Call, tf_message, take_names, fetch, publish, remove, update,
  stop, take_sync_names, step, run, CollisionObject,
}
use intrinsic_moveit.SceneSync.Invariant.{AllPlain, or_none, All-insert_set, IsTracked}

appended-AllPlain :
    (o : Option (List Str)) (names : List Str)
    → AllPlain (or_none o)
    → AllPlain names
    → AllPlain (or_none (some (appended o names)))
unfolding appended
appended-AllPlain none names h p = p
appended-AllPlain (some old) names h p = All-append _ old names h p

module _ {W : Type 0} where
  -- The four maps of the invariant are the same.
  record SameShapes (s t : Data W) : Type 0 where
    renderables : t.renderables_collision ≡ s.renderables_collision
    primitives : t.primitives_collision ≡ s.primitives_collision
    frames : t.collision_tf_frame_to_mesh_ids ≡ s.collision_tf_frame_to_mesh_ids
    poses : t.relative_mesh_pose ≡ s.relative_mesh_pose
    -- Names are added only if they have no slash.
    names : AllPlain (or_none s.sync_object_names) → AllPlain (or_none t.sync_object_names)

  IsTracked-of_SameShapes : (s t : Data W) → SameShapes s t → IsTracked s → IsTracked t
  IsTracked-of_SameShapes s t e h = record {
    meshes = λ frame ids found.
        All-imp
          (λ j x. record {
            posed = rw e.poses x.posed;
            shaped = rw (e.renderables, e.primitives) x.shaped;
          })
          ids (h.meshes frame ids (rw e.frames at found));
    slashed = λ frame ids found. h.slashed frame ids (rw e.frames at found);
    unique = subst Unique (sym e.frames) h.unique;
    plain = e.names h.plain;
  }

  remove-IsTracked :
      (s : Data W) (frame : Str) → IsTracked s → IsTracked (remove_collision_object s frame).0
  unfolding remove_collision_object
  remove-IsTracked s frame t =
      let still : (other : Str) (ids : List Str)
          → lookup other (erase frame s.collision_tf_frame_to_mesh_ids) ≡ some ids
          → lookup other s.collision_tf_frame_to_mesh_ids ≡ some ids =
        λ other ids found.
          ground (arith, lookup-erase frame other s.collision_tf_frame_to_mesh_ids) in
      record {
        meshes = λ other ids found.
            All-imp (λ j x. record { posed = x.posed; shaped = x.shaped }) ids
              (t.meshes other ids (still other ids found));
        slashed = λ other ids found. t.slashed other ids (still other ids found);
        unique = Unique-erase frame s.collision_tf_frame_to_mesh_ids t.unique;
        plain = t.plain;
      }

  same : (s : Data W) → SameShapes s s
  same s = record {
    renderables = refl;
    primitives = refl;
    frames = refl;
    poses = refl;
    names = λ n. n;
  }

  request_sync-SameShapes :
      (s : Data W) (names : List Str) → AllPlain names → SameShapes s (request_sync s names)
  unfolding request_sync appended
  request_sync-SameShapes s [] p = same s
  request_sync-SameShapes s (n ∷ names) p = record {
    renderables = refl;
    primitives = refl;
    frames = refl;
    poses = refl;
    names = λ old. appended-AllPlain s.sync_object_names (n ∷ names) old p;
  }

  find_frames-AllPlain :
      (config : Config W) (known : List Str) (message : List (TransformStamped W)) (found : Found W)
      → AllPlain found.new_object_names
      → AllPlain (find_frames config known found message).new_object_names
  unfolding find_frames object_name_of
  find_frames-AllPlain config known [] found p = p
  find_frames-AllPlain config known (t ∷ rest) found p =
      find_frames-AllPlain config known rest _
        (elim (Bool-cases (mem_str (to_ros config t).child_frame_id known)) [
          | inl e ↦ rw e p
          | inr e ↦ rw e (
              All-insert_set (λ name. has_byte slash name ≡ false) (object_name_of config t)
                found.new_object_names (has_byte-take_until slash _) p)
        ])

module _ {W : Type 0} ⦃d : Double W⦄ ⦃m : Cmath W⦄ (seconds : ℤ → W) (config : Config W)
    (t_now : ℤ) where
  update_frames-IsTracked :
      (transforms : List (TransformStamped W)) (frames : List (Str × List Str)) (s : Data W)
      → IsTracked s
      → IsTracked (update_frames seconds config t_now transforms s frames).0
  unfolding record_published
  update_frames-IsTracked = update_frames-keeps seconds config t_now IsTracked (λ s frame pose t.
      record {
        meshes = λ other ids h.
            All-imp (λ j x. record { posed = x.posed; shaped = x.shaped }) ids
              (t.meshes other ids h);
        slashed = t.slashed;
        unique = t.unique;
        plain = t.plain;
      })

  on_tf_message-IsTracked :
      (s : Data W) (message : List (TransformStamped W))
      → IsTracked s
      → IsTracked (on_tf_message seconds config s t_now message).0
  unfolding on_tf_message update_collision_objects
  on_tf_message-IsTracked s message t =
      let found =
        find_frames config s.tf_frame_names
          (record { transforms = []; new_tf_frame_names = []; new_object_names = [] }) message in
      let plain = find_frames-AllPlain config s.tf_frame_names message _ tt in
      let s1 = (remove_deleted found.new_tf_frame_names s s.tf_frame_names).0 in
      let s2 = request_sync s1 found.new_object_names in
      let t1 =
        remove_deleted-keeps IsTracked remove-IsTracked found.new_tf_frame_names s.tf_frame_names s
          t in
      let t2 =
        IsTracked-of_SameShapes s1 s2 (request_sync-SameShapes s1 found.new_object_names plain)
          t1 in
      update_frames-IsTracked _ _ _ (
        IsTracked-of_SameShapes s2 _
          (record {
            renderables = refl;
            primitives = refl;
            frames = refl;
            poses = refl;
            names = λ n. n;
          })
          t2)

module _ {W : Type 0} ⦃d : Double W⦄ ⦃m : Cmath W⦄ (world : WorldClient W)
    (create_mesh : List ℕ → Option (ShapeMesh W)) (seconds : ℤ → W) (config : Config W) where
  -- The invariant is kept by a call, whatever the world service answers.
  step-IsTracked :
      (s : Data W) (call : Call W)
      → IsTracked s
      → IsTracked (step world create_mesh seconds config s call).0
  unfolding step take_sync_names update_collision_objects
  step-IsTracked s (tf_message t_now message) t =
      on_tf_message-IsTracked seconds config t_now s message t
  step-IsTracked s take_names t =
      IsTracked-of_SameShapes s _
        (record {
          renderables = refl;
          primitives = refl;
          frames = refl;
          poses = refl;
          names = λ n. tt;
        })
        t
  step-IsTracked s (fetch names) t = fetch-IsTracked world config s names t
  step-IsTracked s (publish frames) t = t
  step-IsTracked s (remove frame) t = remove-IsTracked s frame t
  step-IsTracked s (update t_now transforms) t =
      update_frames-IsTracked seconds config t_now transforms s.collision_tf_frame_to_mesh_ids s t
  step-IsTracked s stop t =
      IsTracked-of_SameShapes s _
        (record {
          renderables = refl;
          primitives = refl;
          frames = refl;
          poses = refl;
          names = λ n. n;
        })
        t

  run_from-IsTracked :
      (calls : List (Call W)) (s : Data W)
      → IsTracked s
      → IsTracked (run world create_mesh seconds config s calls)
  unfolding run
  run_from-IsTracked [] s t = t
  run_from-IsTracked (call ∷ calls) s t = run_from-IsTracked calls _ (step-IsTracked s call t)

  -- After any sequence of TF messages, fetches, publications, removals and updates, whatever the
  -- world service answers, each mesh of a tracked frame has a relative pose and a mesh or a
  -- primitive, each tracked frame is tracked once and
  -- has a slash in its name, and no name that waits to be fetched does.
  pub run-IsTracked :
      (calls : List (Call W)) → IsTracked (run world create_mesh seconds config initial calls)
  unfolding initial lookup
  run-IsTracked calls = run_from-IsTracked calls initial (record {
    meshes = λ frame ids h. absurd (cc);
    slashed = λ frame ids h. absurd (cc);
    unique = tt;
    plain = tt;
  })

  add_if_ok-named :
      (r : Data W × StatusOr (Unit {0})) (names : List Str)
      → IsTracked r.0
      → AllPlain names
      → (add_if_ok world create_mesh config r (some names)).1 ≡ []
  unfolding add_if_ok
  add_if_ok-named (s, err e) names t h = refl
  add_if_ok-named (s, ok u) names t h = add_collision_objects_to_scene-named create_mesh s names t h

  sync_round_named :
      (before : Data W) (names : List Str) (s : Data W) (published : List (CollisionObject W))
      → IsTracked before
      → before.sync_object_names ≡ some names
      → sync_round world create_mesh config before ≡ some (s, published)
      → published ≡ []
  unfolding sync_round take_sync_names step
  sync_round_named before names s published t e h = elim (Bool-cases before.shutdown) [
    | inl k ↦ absurd (cc (rw k at h))
    | inr k ↦
        let taken = (take_sync_names before).0 in
        let plain : AllPlain names = subst (λ o. AllPlain (or_none o)) e t.plain in
        let kept =
          fetch-IsTracked world config taken (some names) (step-IsTracked before take_names t) in
        let silent =
          add_if_ok-named (fetch_and_synchronize_collision_objects world config taken (some names))
            names kept plain in
        let result : add_if_ok world create_mesh config
              (fetch_and_synchronize_collision_objects world config taken (some names)) (some names)
            ≡ (s, published) =
          cc (rw (k, e) at h) in
        sym (ap (λ (r : Data W × List (CollisionObject W)). r.1) result) ∙ silent
  ]

  -- A round of the sync thread that has names to fetch publishes nothing, after any sequence of
  -- calls: the names have no slash, and the frames that are looked up by them all have one.
  pub sync_round-named :
      (calls : List (Call W)) (names : List Str) (s : Data W) (published : List (CollisionObject W))
      → (run world create_mesh seconds config initial calls).sync_object_names ≡ some names
      → sync_round world create_mesh config (run world create_mesh seconds config initial calls)
        ≡ some (s, published)
      → published ≡ []
  sync_round-named calls names s published e h =
      sync_round_named _ names s published (run-IsTracked calls) e h
