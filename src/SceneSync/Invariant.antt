-- ===== src/SceneSync/Invariant.antt =====
-- What every call keeps: each tracked mesh has a relative pose and a shape, and each tracked frame
-- has the form object/entity.
use intrinsic_moveit.Prelude.{
  Unique, Unique-insert, none, sym, ◌∙◌, Option-cases, inl, inr, Bool-cases, subst, ℕ, Str, slash,
  has_byte, str_eq, str_eq_iff, mem_str, contains, lookup, insert, lookup-insert, List, All,
  All-imp, some, Option-cases, true, ◌||◌, Bool-cases, ◌≡◌, sym, subst, ◌∙◌, arith, inl, inr, false,
  Option, [],
}
use intrinsic_moveit.Messages.{Pose}
use intrinsic_moveit.SceneSync.World.{SolidPrimitive}
use intrinsic_moveit.SceneSync.Data.{Data, insert_set}
use intrinsic_moveit.SceneSync.Fetch.{track, ids_or_empty}

pub contains-insert :
    {V : Type 0} (k j : Str) (v : V) (m : List (Str × V))
    → contains j m ≡ true
    → contains j (insert k v m) ≡ true
contains-insert k j v m h = ground (arith, lookup-insert k j v m)

pub contains-insert_same :
    {V : Type 0} (k : Str) (v : V) (m : List (Str × V)) → contains k (insert k v m) ≡ true
contains-insert_same k v m = ground (arith, lookup-insert k k v m, str_eq_iff k k)

pub All-insert_set :
    (P : Str → Type 0) (x : Str) (xs : List Str) → P x → All P xs → All P (insert_set x xs)
All-insert_set P x xs p ps = elim (Bool-cases (mem_str x xs)) [
  | inl e ↦ rw e ps
  | inr e ↦ rw e (p, ps)
]

-- The names have no slash.
abbrev pub AllPlain : List Str → Type 0
AllPlain = All (λ name. has_byte slash name ≡ false)

abbrev pub or_none : Option (List Str) → List Str
or_none none = []
or_none (some names) = names

module _ {W : Type 0} where
  -- The mesh has a pose, and a mesh or a primitive.
  pub record HasShape (s : Data W) (id : Str) : Type 0 where
    pub posed : contains id s.relative_mesh_pose ≡ true
    pub shaped : (contains id s.renderables_collision || contains id s.primitives_collision) ≡ true

  pub record IsTracked (s : Data W) : Type 0 where
    pub meshes :
        (frame : Str) (ids : List Str)
        → lookup frame s.collision_tf_frame_to_mesh_ids ≡ some ids
        → All (HasShape s) ids
    pub slashed :
        (frame : Str) (ids : List Str)
        → lookup frame s.collision_tf_frame_to_mesh_ids ≡ some ids
        → has_byte slash frame ≡ true
    pub unique : Unique s.collision_tf_frame_to_mesh_ids
    pub plain : AllPlain (or_none s.sync_object_names)

  -- More shapes do no harm.
  pub add_renderable-IsTracked :
      (s : Data W) (id : Str) (gltf : List ℕ)
      → IsTracked s
      → IsTracked (record s { renderables_collision = insert id gltf s.renderables_collision })
  add_renderable-IsTracked s id gltf t = record {
    meshes = λ frame ids h.
        All-imp
          (λ j x. record {
            posed = x.posed;
            shaped = ground (arith, x.shaped, contains-insert id j gltf s.renderables_collision);
          })
          ids (t.meshes frame ids h);
    slashed = t.slashed;
    unique = t.unique;
    plain = t.plain;
  }

  pub add_primitive-IsTracked :
      (s : Data W) (id : Str) (primitive : SolidPrimitive W)
      → IsTracked s
      → IsTracked (record s { primitives_collision = insert id primitive s.primitives_collision })
  add_primitive-IsTracked s id primitive t = record {
    meshes = λ frame ids h.
        All-imp
          (λ j x. record {
            posed = x.posed;
            shaped =
                ground (arith, x.shaped, contains-insert id j primitive s.primitives_collision);
          })
          ids (t.meshes frame ids h);
    slashed = t.slashed;
    unique = t.unique;
    plain = t.plain;
  }

  track-HasShape :
      (s : Data W) (frame id j : Str) (pose : Pose W)
      → HasShape s j
      → HasShape (track s frame id pose) j
  unfolding track
  track-HasShape s frame id j pose x = record {
    posed = contains-insert id j pose s.relative_mesh_pose x.posed;
    shaped = x.shaped;
  }

  ids-HasShape :
      (s : Data W) (frame : Str)
      → IsTracked s
      → All (HasShape s) (ids_or_empty (lookup frame s.collision_tf_frame_to_mesh_ids))
  ids-HasShape s frame t = elim (Option-cases (lookup frame s.collision_tf_frame_to_mesh_ids)) [
    | inl e ↦ rw e tt
    | inr (ids, e) ↦ rw e (t.meshes frame ids e)
  ]

  pub track-IsTracked :
      (s : Data W) (frame id : Str) (pose : Pose W)
      → has_byte slash frame ≡ true
      → (contains id s.renderables_collision || contains id s.primitives_collision) ≡ true
      → IsTracked s
      → IsTracked (track s frame id pose)
  unfolding track
  track-IsTracked s frame id pose named shaped t = record {
    meshes = λ other ids h.
        (let ids_now =
            insert_set id (ids_or_empty (lookup frame s.collision_tf_frame_to_mesh_ids)) in
          let found =
            sym (lookup-insert frame other ids_now s.collision_tf_frame_to_mesh_ids) ∙ h in
          elim (Bool-cases (str_eq frame other)) [
            | inl e ↦
                let same : ids_now ≡ ids = ground (arith, found) in
                rw (← same) (
                  All-insert_set (HasShape (track s frame id pose)) id _
                    (record {
                      posed = contains-insert_same id pose s.relative_mesh_pose;
                      shaped = shaped;
                    })
                    (All-imp (λ j x. track-HasShape s frame id j pose x) _
                      (ids-HasShape s frame t)))
            | inr e ↦
                All-imp (λ j x. track-HasShape s frame id j pose x) ids
                  (t.meshes other ids (ground (arith, found)))
          ]);
    slashed = λ other ids h.
        (let ids_now =
            insert_set id (ids_or_empty (lookup frame s.collision_tf_frame_to_mesh_ids)) in
          let found =
            sym (lookup-insert frame other ids_now s.collision_tf_frame_to_mesh_ids) ∙ h in
          elim (Bool-cases (str_eq frame other)) [
            | inl e ↦ subst (λ f. has_byte slash f ≡ true) ((str_eq_iff frame other).0 e) named
            | inr e ↦ t.slashed other ids (ground (arith, found))
          ]);
    unique = Unique-insert frame _ s.collision_tf_frame_to_mesh_ids t.unique;
    plain = t.plain;
  }
