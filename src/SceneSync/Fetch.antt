-- ===== src/SceneSync/Fetch.antt =====
-- moveit_planning_service/src/moveit_scene_synchronizer.cpp: FetchAndSynchronizeCollisionObjects,
-- loop by loop.
pub mod Laws
use intrinsic_moveit.Prelude.{
  ℕ, suc, zero, ◌+◌, ◌/◌, ◌%◌, Str, codes, slash, last_part, str_eq, mem_str, length, ltb, is_empty,
  contains, ◌==◌, ◌&&◌, insert, lookup, List, [], ◌∷◌, ◌++◌, Option, none, some, Bool,
  if◌then◌else◌, StatusOr, ok, err, decimal,
}
use intrinsic_moveit.Double.{Double, nought}
use intrinsic_moveit.Messages.{Pose}
use intrinsic_moveit.SceneSync.World.{
  ShapeTransform, no_matrix, bad_matrix, matrix, PrimitiveShape, box_shape, cylinder_shape,
  sphere_shape, capsule_shape, other_shape, Geometry, geo_ref, inline_geometry, no_geometry,
  TransformedGeometry, Entity, WorldObject, WorldClient, box, sphere, cylinder, SolidPrimitive,
}
use intrinsic_moveit.SceneSync.Data.{Config, Data, insert_set, strip_tf_prefixes}

unfoldable pub solid_primitive : {W : Type 0} → PrimitiveShape W → Option (SolidPrimitive W)
solid_primitive (box_shape size) =
    some (record { type = box; dimensions = size.x ∷ size.y ∷ size.z ∷ [] })
solid_primitive (cylinder_shape length radius) =
    some (record { type = cylinder; dimensions = length ∷ radius ∷ [] })
solid_primitive (sphere_shape radius) = some (record { type = sphere; dimensions = radius ∷ [] })
solid_primitive (capsule_shape length radius) =
    some (record { type = cylinder; dimensions = length ∷ radius ∷ [] })
solid_primitive other_shape = none

abbrev pub ids_or_empty : Option (List Str) → List Str
ids_or_empty none = []
ids_or_empty (some ids) = ids

unfoldable pub tf_frame_of : {W : Type 0} → Config W → Str → Str → Str
tf_frame_of config short_name entity_name = config.tf_prefix ++ short_name ++ (slash ∷ entity_name)

unfoldable pub mesh_id_of : Str → Str → Str
mesh_id_of frame inner_name = slash ∷ (frame ++ (slash ∷ inner_name))

prim_id : Str → Bool → ℕ → Str
prim_id id several i = if several then id ++ codes "_prim_" ++ decimal i else id

-- An empty list of names asks for every object.
names_or_all : Option (List Str) → Option (List Str)
names_or_all none = none
names_or_all (some []) = none
names_or_all (some (name ∷ rest)) = some (name ∷ rest)

module _ {W : Type 0} where
  -- The pose of a mesh, and the mesh among those of its frame.
  unfoldable pub track : Data W → Str → Str → Pose W → Data W
  track s frame id pose =
      let ids = ids_or_empty (lookup frame s.collision_tf_frame_to_mesh_ids) in
      record s {
        relative_mesh_pose = insert id pose s.relative_mesh_pose;
        collision_tf_frame_to_mesh_ids =
            insert frame (insert_set id ids) s.collision_tf_frame_to_mesh_ids;
      }

  unfoldable pub store_mesh : Data W → Str → Str → Pose W → StatusOr (List ℕ) → Data W
  store_mesh s frame id pose (err e) = s
  store_mesh s frame id pose (ok gltf) =
      track (record s { renderables_collision = insert id gltf s.renderables_collision }) frame id
        pose

  unfoldable pub store_primitive : Data W → Str → Str → Pose W → Option (SolidPrimitive W) → Data W
  store_primitive s frame id pose none = s
  store_primitive s frame id pose (some primitive) =
      track (record s { primitives_collision = insert id primitive s.primitives_collision }) frame
        id pose

  shape_primitive : Option (PrimitiveShape W) → Option (SolidPrimitive W)
  shape_primitive none = none
  shape_primitive (some shape) = solid_primitive shape

  -- The primitives from number `i` on; `several` is whether the set has more than one.
  unfoldable pub store_primitives :
      Data W → Str → Str → Pose W → Bool → ℕ → List (Option (PrimitiveShape W)) → Data W
  unfolding prim_id shape_primitive
  store_primitives s frame id pose several i [] = s
  store_primitives s frame id pose several i (shape ∷ rest) =
      store_primitives (store_primitive s frame (prim_id id several i) pose (shape_primitive shape))
        frame id pose several (i + 1) rest

module _ {W : Type 0} (world : WorldClient W) where
  unfoldable pub store_geometry : Data W → Str → Str → Pose W → Geometry W → Data W
  store_geometry s frame id pose (geo_ref exact renderable) =
      if contains id s.renderables_collision
      then track s frame id pose
      else store_mesh s frame id pose (world.get_gltf exact renderable)
  store_geometry s frame id pose (inline_geometry none) = s
  store_geometry s frame id pose (inline_geometry (some shapes)) =
      store_primitives s frame id pose (ltb 1 (length shapes)) 0 shapes
  store_geometry s frame id pose no_geometry = s

module _ {W : Type 0} ⦃d : Double W⦄ where
  -- The pose without a transform: only the orientation's w is set.
  abbrev pub identity_pose : Pose W
  identity_pose = record {
    position = record { x = nought; y = nought; z = nought };
    orientation = record { x = nought; y = nought; z = nought; w = d.ratio 1 1 };
  }

  mesh_pose : ShapeTransform W → Pose W
  mesh_pose no_matrix = identity_pose
  mesh_pose bad_matrix = identity_pose
  mesh_pose (matrix rows cols affine) = if rows == 4 && cols == 4 then affine else identity_pose

module _ {W : Type 0} ⦃d : Double W⦄ (world : WorldClient W) (config : Config W) where
  unfoldable pub fetch_geometry : Str → Str → Data W → Str × TransformedGeometry W → Data W
  unfolding mesh_pose
  fetch_geometry object_name entity_name s (inner_name, transformed) =
      let short_name = last_part slash (strip_tf_prefixes object_name config.strip_tf_prefixes) in
      let frame = tf_frame_of config short_name entity_name in
      if mem_str short_name config.excluded_collision_namespaces
      then s
      else store_geometry world s frame (mesh_id_of frame inner_name)
          (mesh_pose transformed.ref_t_shape) transformed.geometry

  unfoldable pub fetch_geometries : Str → Str → Data W → List (Str × TransformedGeometry W) → Data W
  fetch_geometries object_name entity_name s [] = s
  fetch_geometries object_name entity_name s (g ∷ rest) =
      fetch_geometries object_name entity_name (fetch_geometry object_name entity_name s g) rest

  unfoldable pub fetch_named :
      Str → Str → Data W → List (Str × List (Str × TransformedGeometry W)) → Data W
  fetch_named object_name entity_name s [] = s
  fetch_named object_name entity_name s ((name, geometries) ∷ rest) =
      fetch_named object_name entity_name
        (if str_eq name (codes "Intrinsic_Collision")
          then fetch_geometries object_name entity_name s geometries
          else s)
        rest

  fetch_entity : Str → Data W → Entity W → Data W
  fetch_entity object_name s entity = elim entity.geometry_component [
    | none ↦ s
    | some named ↦ fetch_named object_name entity.name s named
  ]

  unfoldable pub fetch_entities : Str → Data W → List (Entity W) → Data W
  unfolding fetch_entity
  fetch_entities object_name s [] = s
  fetch_entities object_name s (entity ∷ rest) =
      fetch_entities object_name (fetch_entity object_name s entity) rest

  unfoldable pub fetch_objects : Data W → List (WorldObject W) → Data W
  fetch_objects s [] = s
  fetch_objects s (object ∷ rest) =
      fetch_objects
        (if is_empty object.name then s else fetch_entities object.name s object.entities) rest

  fetched : Data W → StatusOr (List (WorldObject W)) → Data W × StatusOr (Unit {0})
  fetched s (err e) = (s, err e)
  fetched s (ok objects) = (fetch_objects s objects, ok tt)

  unfoldable pub fetch_and_synchronize_collision_objects :
      Data W → Option (List Str) → Data W × StatusOr (Unit {0})
  unfolding names_or_all fetched
  fetch_and_synchronize_collision_objects s object_names =
      fetched s (world.get_objects (names_or_all object_names))
