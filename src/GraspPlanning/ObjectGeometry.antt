-- ===== src/GraspPlanning/ObjectGeometry.antt =====
-- moveit_planning_service/src/object_geometry.cpp: computeObjectBoundingBox, the box of a collision
-- object. Eigen's isometries are a parameter.
pub mod Laws
pub mod Contains
mod Tests
use intrinsic_moveit.Prelude.{
  ℕ, ◌+◌, get_elem?, List, [], ◌∷◌, Option, none, some, Bool, true, false, ◌||◌, if◌then◌else◌,
}
use intrinsic_moveit.Double.{Double, nought, min_double, max_double}
use intrinsic_moveit.Messages.{Vector3, Quaternion, Pose}
use intrinsic_moveit.SceneSync.World.{
  SolidPrimitive, PrimitiveType, box, sphere, cylinder, Mesh, CollisionObject,
}

-- Eigen::Isometry3d, with the infinities of std::numeric_limits<double>. `with_rotation` normalizes
-- the quaternion.
pub record Isometries (W I : Type 0) : Type 0 where
  pub identity : I
  pub with_translation : I → Vector3 W → I
  pub with_rotation : I → Quaternion W → I
  pub squared_norm : Quaternion W → W
  pub apply : I → Vector3 W → Vector3 W
  pub infinity : W
  pub minus_infinity : W

pub record ObjectBoundingBox (W I : Type 0) : Type 0 where
  pub dimensions : Vector3 W
  pub center_transform : I

-- Bounds of the vertices so far; `none` before the first vertex.
pub record Extent (W : Type 0) : Type 0 where
  pub minimum : Vector3 W
  pub maximum : Vector3 W
  pub found_vertex : Bool

module _ {W : Type 0} where
  -- The dimensions of a BOX primitive that has all three.
  box_dimensions : PrimitiveType → List W → Option (Vector3 W)
  box_dimensions box (x ∷ y ∷ z ∷ _) = some (record { x = x; y = y; z = z })
  box_dimensions box _ = none
  box_dimensions sphere _ = none
  box_dimensions cylinder _ = none

module _ {W I : Type 0} ⦃d : Double W⦄ (eigen : Isometries W I) where
  -- pose_to_isometry of generate_box_grasp_poses.cpp: a rotation of no size is left out.
  unfoldable pub pose_to_isometry : Pose W → I
  pose_to_isometry pose =
      let transform = eigen.with_translation eigen.identity pose.position in
      if d.lt (d.ratio 1 1000000) (eigen.squared_norm pose.orientation)
      then eigen.with_rotation transform pose.orientation
      else transform

  unfoldable pub transform_at : List (Pose W) → ℕ → I
  transform_at poses i = elim (get_elem? poses i) [
    | none ↦ eigen.identity
    | some pose ↦ pose_to_isometry pose
  ]

module _ {W : Type 0} ⦃d : Double W⦄ where
  -- (dimensions.array() <= 0.0).any()
  abbrev pub any_nonpositive : Vector3 W → Bool
  any_nonpositive v = d.le v.x nought || (d.le v.y nought || d.le v.z nought)

  abbrev pub cwise_min : Vector3 W → Vector3 W → Vector3 W
  cwise_min a b = record { x = min_double a.x b.x; y = min_double a.y b.y; z = min_double a.z b.z }

  abbrev pub cwise_max : Vector3 W → Vector3 W → Vector3 W
  cwise_max a b = record { x = max_double a.x b.x; y = max_double a.y b.y; z = max_double a.z b.z }

  abbrev pub minus : Vector3 W → Vector3 W → Vector3 W
  minus a b = record { x = d.sub a.x b.x; y = d.sub a.y b.y; z = d.sub a.z b.z }

  abbrev pub middle : Vector3 W → Vector3 W → Vector3 W
  middle a b = record {
    x = d.mul (d.ratio 1 2) (d.add a.x b.x);
    y = d.mul (d.ratio 1 2) (d.add a.y b.y);
    z = d.mul (d.ratio 1 2) (d.add a.z b.z);
  }

  unfoldable pub add_vertex : Extent W → Vector3 W → Extent W
  add_vertex e v = record {
    minimum = cwise_min e.minimum v;
    maximum = cwise_max e.maximum v;
    found_vertex = true;
  }

  unfoldable pub add_vertices : Extent W → List (Vector3 W) → Extent W
  unfolding add_vertex
  add_vertices e [] = e
  add_vertices e (v ∷ vs) = add_vertices (add_vertex e v) vs

module _ {W I : Type 0} ⦃d : Double W⦄ (eigen : Isometries W I) where
  abbrev pub moved : I → List (Vector3 W) → List (Vector3 W)
  moved transform [] = []
  moved transform (v ∷ vs) = eigen.apply transform v ∷ moved transform vs

  -- The meshes from number `i` on.
  unfoldable pub add_meshes_extent : List (Pose W) → ℕ → Extent W → List (Mesh W) → Extent W
  unfolding transform_at
  add_meshes_extent poses i e [] = e
  add_meshes_extent poses i e (mesh ∷ rest) =
      add_meshes_extent poses (i + 1)
        (add_vertices e (moved (transform_at eigen poses i) mesh.vertices)) rest

  abbrev pub no_extent : Extent W
  no_extent = record {
    minimum = record { x = eigen.infinity; y = eigen.infinity; z = eigen.infinity };
    maximum = record {
      x = eigen.minus_infinity;
      y = eigen.minus_infinity;
      z = eigen.minus_infinity;
    };
    found_vertex = false;
  }

  unfoldable pub box_of_extent : Extent W → Option (ObjectBoundingBox W I)
  box_of_extent e =
      let dimensions = minus e.maximum e.minimum in
      if e.found_vertex
      then (if any_nonpositive dimensions
          then none
          else some (record {
            dimensions = dimensions;
            center_transform = eigen.with_translation eigen.identity (middle e.minimum e.maximum);
          }))
      else none

  -- The primitives from number `i` on: the first that is a valid box, or else `rest`.
  box_or : Option (Vector3 W) → I → Option (ObjectBoundingBox W I) → Option (ObjectBoundingBox W I)
  box_or none transform rest = rest
  box_or (some dimensions) transform rest =
      if any_nonpositive dimensions
      then rest
      else some (record { dimensions = dimensions; center_transform = transform })

  unfoldable pub first_box :
      List (Pose W)
      → ℕ
      → List (SolidPrimitive W)
      → Option (ObjectBoundingBox W I)
      → Option (ObjectBoundingBox W I)
  unfolding box_or box_dimensions transform_at
  first_box poses i [] otherwise = otherwise
  first_box poses i (primitive ∷ rest) otherwise =
      box_or (box_dimensions primitive.type primitive.dimensions) (transform_at eigen poses i)
        (first_box poses (i + 1) rest otherwise)

  unfoldable pub compute_object_bounding_box : CollisionObject W → Option (ObjectBoundingBox W I)
  unfolding box_of_extent
  compute_object_bounding_box object =
      first_box object.primitive_poses 0 object.primitives
        (box_of_extent (add_meshes_extent object.mesh_poses 0 no_extent object.meshes))
