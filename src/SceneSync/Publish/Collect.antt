-- ===== src/SceneSync/Publish/Collect.antt =====
-- What is collected of a frame, counted and described by the poses of its ids.
use intrinsic_moveit.Prelude.{
  ℕ, suc, ◌+◌, Str, map, lookup, is_some, length, All, List, [], ◌∷◌, Option, none, some,
  Option-cases, true, false, ◌≡◌, refl, sym, ap, ◌∙◌, arith, inl, inr, Bool, if◌then◌else◌, ◌||◌,
}
use intrinsic_moveit.Double.{Double}
use intrinsic_moveit.Messages.{Pose}
use intrinsic_moveit.SceneSync.World.{SolidPrimitive, ShapeMesh}
use intrinsic_moveit.SceneSync.Data.{Data}
use intrinsic_moveit.SceneSync.Publish.{ObjectCollisionData, add_shape, add_mesh_id, collect}
use intrinsic_moveit.SceneSync.Poses.{
  primitive_only, primitives_where, pose_if, poses_where, is_primitive,
}
use intrinsic_moveit.SceneSync.Invariant.{HasShape}

pub length-map : {A B : Type 0} (f : A → B) (xs : List A) → length (map f xs) ≡ length xs
length-map f [] = refl
length-map f (x ∷ xs) = ap suc (length-map f xs)

module _ {W : Type 0} (s : Data W) where
  add_mesh_id-count :
      (id : Str) (rest : ObjectCollisionData W)
      → HasShape s id
      → length (add_mesh_id s id (lookup id s.relative_mesh_pose) rest).gltf_meshes
          + length (add_mesh_id s id (lookup id s.relative_mesh_pose) rest).primitives
        ≡ suc (length rest.gltf_meshes + length rest.primitives)
  unfolding add_mesh_id add_shape
  add_mesh_id-count id rest x = elim (Option-cases (lookup id s.relative_mesh_pose)) [
    | inl e ↦ absurd (ground (arith, x.posed))
    | inr (pose, e) ↦ elim (Option-cases (lookup id s.renderables_collision)) [
      | inr (gltf, r) ↦ rw (e, r) (omega arith)
      | inl r ↦ elim (Option-cases (lookup id s.primitives_collision)) [
        | inr (primitive, p) ↦ rw (e, r, p) (omega arith)
        | inl p ↦ absurd (ground (arith, x.shaped))
      ]
    ]
  ]

  pub collect-count :
      (frame : Str) (ids : List Str)
      → All (HasShape s) ids
      → length (collect s frame ids).gltf_meshes + length (collect s frame ids).primitives
        ≡ length ids
  unfolding collect
  collect-count frame [] h = refl
  collect-count frame (id ∷ ids) h =
      add_mesh_id-count id (collect s frame ids) h.0 ∙ ap suc (collect-count frame ids h.1)

  add_shape-name :
      (o : Option (List ℕ)) (p : Option (SolidPrimitive W)) (pose : Pose W)
      (rest : ObjectCollisionData W)
      → (add_shape o p pose rest).tf_frame_name ≡ rest.tf_frame_name
  unfolding add_shape
  add_shape-name (some gltf) p pose rest = refl
  add_shape-name none (some p) pose rest = refl
  add_shape-name none none pose rest = refl

  pub collect-name : (frame : Str) (ids : List Str) → (collect s frame ids).tf_frame_name ≡ frame
  unfolding collect add_mesh_id
  collect-name frame [] = refl
  collect-name frame (id ∷ ids) = elim (Option-cases (lookup id s.relative_mesh_pose)) [
    | inl e ↦ rw e (collect-name frame ids)
    | inr (pose, e) ↦ rw e (add_shape-name _ _ pose (collect s frame ids) ∙ collect-name frame ids)
  ]

module _ {W : Type 0} ⦃d : Double W⦄ (create_mesh : List ℕ → Option (ShapeMesh W)) where
  abbrev pub fits : Option (List ℕ) → Bool
  fits none = false
  fits (some gltf) = is_some (create_mesh gltf)

  -- The fetched mesh of an id, if there is one, can be converted.
  abbrev pub converts : Data W → Str → Bool
  converts s id = fits (lookup id s.renderables_collision)

  -- One for a fetched mesh that cannot be converted.
  abbrev pub misfit : Option (List ℕ) → ℕ
  misfit none = 0
  misfit (some gltf) = if is_some (create_mesh gltf) then 0 else 1

  abbrev pub misfits : Data W → List Str → ℕ
  misfits s [] = 0
  misfits s (id ∷ ids) = misfit (lookup id s.renderables_collision) + misfits s ids

  -- Of collected meshes: the poses of those that convert, and how many do not.
  abbrev pub kept_poses : List (List ℕ × Pose W) → List (Pose W)
  kept_poses [] = []
  kept_poses ((gltf, pose) ∷ rest) =
      pose_if (is_some (create_mesh gltf)) (some pose) (kept_poses rest)

  abbrev pub dropped : List (List ℕ × Pose W) → ℕ
  dropped [] = 0
  dropped ((gltf, pose) ∷ rest) = misfit (some gltf) + dropped rest

  pub kept :
      (gltf : List ℕ) (pose : Pose W) (poses : List (Pose W)) (b : Bool)
      → is_some (create_mesh gltf) ≡ b
      → pose_if (is_some (create_mesh gltf)) (some pose) poses ≡ pose_if b (some pose) poses
  kept gltf pose poses b e = rw e refl

  pub misfit_if :
      (gltf : List ℕ) (b : Bool)
      → is_some (create_mesh gltf) ≡ b
      → misfit (some gltf) ≡ (if b then 0 else 1)
  misfit_if gltf b e = ap (λ c. if c then 0 else 1) e

  poses_where_if :
      (p : Str → Bool) (s : Data W) (id : Str) (ids : List Str) (b : Bool) (o : Option (Pose W))
      → p id ≡ b
      → lookup id s.relative_mesh_pose ≡ o
      → poses_where p s (id ∷ ids) ≡ pose_if b o (poses_where p s ids)
  poses_where_if p s id ids b o e f =
      ap (λ c. pose_if c (lookup id s.relative_mesh_pose) (poses_where p s ids)) e
      ∙ ap (λ q. pose_if b q (poses_where p s ids)) f

  pub record Collected (s : Data W) (ids : List Str) (object : ObjectCollisionData W) : Type 0 where
    pub poses : kept_poses object.gltf_meshes ≡ poses_where (converts s) s ids
    pub primitives : map (λ p. p.0) object.primitives ≡ primitives_where s ids
    pub primitive_poses : map (λ p. p.1) object.primitives ≡ poses_where (is_primitive s) s ids
    pub lost : dropped object.gltf_meshes ≡ misfits s ids

  -- One more mesh, or one more primitive.
  add_shape-Collected :
      (s : Data W) (id : Str) (ids : List Str) (pose : Pose W) (object : ObjectCollisionData W)
      (g : Option (List ℕ)) (p : Option (SolidPrimitive W))
      → lookup id s.relative_mesh_pose ≡ some pose
      → lookup id s.renderables_collision ≡ g
      → lookup id s.primitives_collision ≡ p
      → (is_some g || is_some p) ≡ true
      → Collected s ids object
      → Collected s (id ∷ ids) (add_shape g p pose object)
  unfolding add_shape
  add_shape-Collected s id ids pose object (some gltf) p e f h x r = record {
    poses =
        ap (pose_if (is_some (create_mesh gltf)) (some pose)) r.poses
        ∙ sym (poses_where_if (converts s) s id ids _ _ (ap fits f) e);
    primitives =
        r.primitives
        ∙ sym (
            ap (λ q. primitive_only q (lookup id s.primitives_collision) (primitives_where s ids))
              f);
    primitive_poses =
        r.primitive_poses ∙ sym (poses_where_if (is_primitive s) s id ids false _ (rw f refl) e);
    lost = ap (λ n. misfit (some gltf) + n) r.lost ∙ sym (ap (λ q. misfit q + misfits s ids) f);
  }
  add_shape-Collected s id ids pose object none (some primitive) e f h x r = record {
    poses = r.poses ∙ sym (poses_where_if (converts s) s id ids false _ (ap fits f) e);
    primitives =
        ap (λ rest. primitive ∷ rest) r.primitives
        ∙ sym (
            ap (λ q. primitive_only q (lookup id s.primitives_collision) (primitives_where s ids)) f
            ∙ ap (λ q. primitive_only none q (primitives_where s ids)) h);
    primitive_poses =
        ap (λ poses. pose ∷ poses) r.primitive_poses
        ∙ sym (poses_where_if (is_primitive s) s id ids true _ (rw (f, h) refl) e);
    lost = omega (arith, r.lost, ap misfit f);
  }
  add_shape-Collected s id ids pose object none none e f h x r = absurd (ground (arith, x))

  pub collect-Collected :
      (s : Data W) (frame : Str) (ids : List Str)
      → All (HasShape s) ids
      → Collected s ids (collect s frame ids)
  unfolding collect add_mesh_id
  collect-Collected s frame [] h = record {
    poses = refl;
    primitives = refl;
    primitive_poses = refl;
    lost = refl;
  }
  collect-Collected s frame (id ∷ ids) h = elim (Option-cases (lookup id s.relative_mesh_pose)) [
    | inl e ↦ absurd (ground (arith, h.0.posed))
    | inr (pose, e) ↦ rw e (
        add_shape-Collected s id ids pose (collect s frame ids) _ _ e refl refl h.0.shaped
          (collect-Collected s frame ids h.1))
  ]
