-- ===== src/SceneSync/Fetch/Laws.antt =====
-- What the three changes that a fetch makes to the state keep, the whole fetch keeps, whatever the
-- world service answers.
use intrinsic_moveit.Prelude.{
  ℕ, ◌+◌, Str, slash, has_byte, has_byte-append_right, contains, length, ltb, List, [], ◌∷◌, ◌++◌,
  insert, ◌||◌, Option, none, some, Bool, true, false, Bool-cases, ◌≡◌, refl, arith, StatusOr, ok,
  err, inl, inr, if◌then◌else◌,
}
use intrinsic_moveit.Double.{Double}
use intrinsic_moveit.Messages.{Pose}
use intrinsic_moveit.SceneSync.World.{
  PrimitiveShape, SolidPrimitive, Geometry, geo_ref, inline_geometry, no_geometry,
  TransformedGeometry, Entity, WorldObject, WorldClient,
}
use intrinsic_moveit.SceneSync.Data.{Config, Data}
use intrinsic_moveit.SceneSync.Fetch.{
  track, tf_frame_of, store_mesh, store_primitive, store_primitives, store_geometry, fetch_geometry,
  fetch_geometries, fetch_named, fetch_entity, fetch_entities, fetch_objects, fetched,
  fetch_and_synchronize_collision_objects, prim_id, shape_primitive, names_or_all,
}
use intrinsic_moveit.SceneSync.Invariant.{
  IsTracked, add_renderable-IsTracked, add_primitive-IsTracked, track-IsTracked,
  contains-insert_same,
}

-- Kept by a mesh, by a primitive, and by tracking a mesh that is there for a frame with a slash.
pub record Keeps {W : Type 0} (P : Data W → Type 0) : Type 0 where
  pub renderable :
      (s : Data W) (id : Str) (gltf : List ℕ)
      → P s
      → P (record s { renderables_collision = insert id gltf s.renderables_collision })
  pub primitive :
      (s : Data W) (id : Str) (p : SolidPrimitive W)
      → P s
      → P (record s { primitives_collision = insert id p s.primitives_collision })
  pub tracked :
      (s : Data W) (frame id : Str) (pose : Pose W)
      → has_byte slash frame ≡ true
      → (contains id s.renderables_collision || contains id s.primitives_collision) ≡ true
      → P s
      → P (track s frame id pose)

keep_if :
    {W : Type 0} (P : Data W → Type 0) (b : Bool) (s t : Data W)
    → P s
    → P t
    → P (if b then s else t)
keep_if P true s t hs ht = hs
keep_if P false s t hs ht = ht

module _ {W : Type 0} (P : Data W → Type 0) (keeps : Keeps P) (frame : Str)
    (named : has_byte slash frame ≡ true) where
  store_mesh-keeps :
      (s : Data W) (id : Str) (pose : Pose W) (r : StatusOr (List ℕ))
      → P s
      → P (store_mesh s frame id pose r)
  unfolding store_mesh
  store_mesh-keeps s id pose (err e) t = t
  store_mesh-keeps s id pose (ok gltf) t =
      keeps.tracked _ frame id pose named
        (ground (arith, contains-insert_same id gltf s.renderables_collision))
        (keeps.renderable s id gltf t)

  store_primitive-keeps :
      (s : Data W) (id : Str) (pose : Pose W) (p : Option (SolidPrimitive W))
      → P s
      → P (store_primitive s frame id pose p)
  unfolding store_primitive
  store_primitive-keeps s id pose none t = t
  store_primitive-keeps s id pose (some p) t =
      keeps.tracked _ frame id pose named
        (ground (arith, contains-insert_same id p s.primitives_collision))
        (keeps.primitive s id p t)

  store_primitives-keeps :
      (id : Str) (pose : Pose W) (several : Bool) (shapes : List (Option (PrimitiveShape W)))
      (s : Data W) (i : ℕ)
      → P s
      → P (store_primitives s frame id pose several i shapes)
  unfolding store_primitives
  store_primitives-keeps id pose several [] s i t = t
  store_primitives-keeps id pose several (shape ∷ rest) s i t =
      store_primitives-keeps id pose several rest _ (i + 1)
        (store_primitive-keeps s (prim_id id several i) pose (shape_primitive shape) t)

  store_geometry-keeps :
      (world : WorldClient W) (s : Data W) (id : Str) (pose : Pose W) (g : Geometry W)
      → P s
      → P (store_geometry world s frame id pose g)
  unfolding store_geometry
  store_geometry-keeps world s id pose (geo_ref exact renderable) t =
      elim (Bool-cases (contains id s.renderables_collision)) [
        | inl e ↦ rw e (keeps.tracked s frame id pose named (ground arith) t)
        | inr e ↦ rw e (store_mesh-keeps s id pose (world.get_gltf exact renderable) t)
      ]
  store_geometry-keeps world s id pose (inline_geometry none) t = t
  store_geometry-keeps world s id pose (inline_geometry (some shapes)) t =
      store_primitives-keeps id pose (ltb 1 (length shapes)) shapes s 0 t
  store_geometry-keeps world s id pose no_geometry t = t

module _ {W : Type 0} ⦃d : Double W⦄ (P : Data W → Type 0) (keeps : Keeps P) (world : WorldClient W)
    (config : Config W) where
  tf_frame_of-slash :
      (short_name entity_name : Str)
      → has_byte slash (tf_frame_of config short_name entity_name) ≡ true
  unfolding tf_frame_of
  tf_frame_of-slash short_name entity_name =
      has_byte-append_right slash (config.tf_prefix ++ short_name) (slash ∷ entity_name) refl

  fetch_geometry-keeps :
      (object_name entity_name : Str) (s : Data W) (g : Str × TransformedGeometry W)
      → P s
      → P (fetch_geometry world config object_name entity_name s g)
  unfolding fetch_geometry
  fetch_geometry-keeps object_name entity_name s g t =
      keep_if P _ _ _ t (
        store_geometry-keeps P keeps _ (tf_frame_of-slash _ entity_name) world s _ _ g.1.geometry t)

  fetch_geometries-keeps :
      (object_name entity_name : Str) (gs : List (Str × TransformedGeometry W)) (s : Data W)
      → P s
      → P (fetch_geometries world config object_name entity_name s gs)
  unfolding fetch_geometries
  fetch_geometries-keeps object_name entity_name [] s t = t
  fetch_geometries-keeps object_name entity_name (g ∷ gs) s t =
      fetch_geometries-keeps object_name entity_name gs _
        (fetch_geometry-keeps object_name entity_name s g t)

  fetch_named-keeps :
      (object_name entity_name : Str) (named : List (Str × List (Str × TransformedGeometry W)))
      (s : Data W)
      → P s
      → P (fetch_named world config object_name entity_name s named)
  unfolding fetch_named
  fetch_named-keeps object_name entity_name [] s t = t
  fetch_named-keeps object_name entity_name ((name, gs) ∷ rest) s t =
      fetch_named-keeps object_name entity_name rest _
        (keep_if P _ _ _ (fetch_geometries-keeps object_name entity_name gs s t) t)

  fetched_named-keeps :
      (object_name entity_name : Str) (s : Data W)
      (o : Option (List (Str × List (Str × TransformedGeometry W))))
      → P s
      → P (elim o [
        | none ↦ s
        | some named ↦ fetch_named world config object_name entity_name s named
      ])
  fetched_named-keeps object_name entity_name s none t = t
  fetched_named-keeps object_name entity_name s (some named) t =
      fetch_named-keeps object_name entity_name named s t

  fetch_entities-keeps :
      (object_name : Str) (entities : List (Entity W)) (s : Data W)
      → P s
      → P (fetch_entities world config object_name s entities)
  unfolding fetch_entities fetch_entity
  fetch_entities-keeps object_name [] s t = t
  fetch_entities-keeps object_name (entity ∷ rest) s t =
      fetch_entities-keeps object_name rest _
        (fetched_named-keeps object_name entity.name s entity.geometry_component t)

  fetch_objects-keeps :
      (objects : List (WorldObject W)) (s : Data W) → P s → P (fetch_objects world config s objects)
  unfolding fetch_objects
  fetch_objects-keeps [] s t = t
  fetch_objects-keeps (object ∷ rest) s t =
      fetch_objects-keeps rest _
        (keep_if P _ _ _ t (fetch_entities-keeps object.name object.entities s t))

  fetched-keeps :
      (s : Data W) (r : StatusOr (List (WorldObject W))) → P s → P (fetched world config s r).0
  unfolding fetched
  fetched-keeps s (err e) t = t
  fetched-keeps s (ok objects) t = fetch_objects-keeps objects s t

  pub fetch-keeps :
      (s : Data W) (object_names : Option (List Str))
      → P s
      → P (fetch_and_synchronize_collision_objects world config s object_names).0
  unfolding fetch_and_synchronize_collision_objects
  fetch-keeps s object_names t = fetched-keeps s (world.get_objects (names_or_all object_names)) t

module _ {W : Type 0} ⦃d : Double W⦄ (world : WorldClient W) (config : Config W) where
  pub fetch-IsTracked :
      (s : Data W) (object_names : Option (List Str))
      → IsTracked s
      → IsTracked (fetch_and_synchronize_collision_objects world config s object_names).0
  fetch-IsTracked =
      fetch-keeps IsTracked
        (record {
          renderable = add_renderable-IsTracked;
          primitive = add_primitive-IsTracked;
          tracked = track-IsTracked;
        })
        world config

-- The names that wait, and whether the sync thread is to wake up.
abbrev pub pending : {W : Type 0} → Data W → Option (List Str) × Bool
pending s = (s.sync_object_names, s.sync_new_objects)

module _ {W : Type 0} ⦃d : Double W⦄ (world : WorldClient W) (config : Config W) where
  pub fetch-pending :
      (s : Data W) (object_names : Option (List Str))
      → pending (fetch_and_synchronize_collision_objects world config s object_names).0 ≡ pending s
  unfolding track
  fetch-pending s object_names =
      fetch-keeps (λ t. pending t ≡ pending s)
        (record {
          renderable = λ t id gltf h. h;
          primitive = λ t id p h. h;
          tracked = λ t frame id pose named shaped h. h;
        })
        world config s object_names refl
