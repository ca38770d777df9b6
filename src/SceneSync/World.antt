-- ===== src/SceneSync/World.antt =====
-- moveit_planning_service/src/moveit_scene_synchronizer.cpp: what the synchronizer gets from the
-- world service, and the messages that it publishes.
use intrinsic_moveit.Prelude.{ℕ, Str, List, Option, StatusOr}
use intrinsic_moveit.Messages.{Vector3, Quaternion, Pose}

-- ref_t_shape: not a matrix, a matrix that does not parse, or one with its numbers of rows and
-- columns and the pose that Eigen reads from it if it is a 4x4 affine transform.
pub data ShapeTransform (W : Type 0) : Type 0 where
  no_matrix bad_matrix : ShapeTransform W
  matrix : ℕ → ℕ → Pose W → ShapeTransform W

pub data PrimitiveShape (W : Type 0) : Type 0 where
  box_shape : Vector3 W → PrimitiveShape W
  cylinder_shape : W → W → PrimitiveShape W
  sphere_shape : W → PrimitiveShape W
  capsule_shape : W → W → PrimitiveShape W
  other_shape : PrimitiveShape W

pub data Geometry (W : Type 0) : Type 0 where
  -- exact_geometry_ref and renderable_ref
  geo_ref : Str → Str → Geometry W
  -- The primitives of the exact geometry's primitive set, each with a shape or without; `none` if
  -- there is no such set.
  inline_geometry : Option (List (Option (PrimitiveShape W))) → Geometry W
  no_geometry : Geometry W

pub record TransformedGeometry (W : Type 0) : Type 0 where
  pub ref_t_shape : ShapeTransform W
  pub geometry : Geometry W

pub record Entity (W : Type 0) : Type 0 where
  pub name : Str
  -- The named geometries of the geometry component, if there is one.
  pub geometry_component : Option (List (Str × List (Str × TransformedGeometry W)))

pub record WorldObject (W : Type 0) : Type 0 where
  pub name : Str
  pub entities : List (Entity W)

-- flowstate_ros_bridge::World
pub record WorldClient (W : Type 0) : Type 0 where
  pub get_objects : Option (List Str) → StatusOr (List (WorldObject W))
  pub get_gltf : Str → Str → StatusOr (List ℕ)

-- shape_msgs/SolidPrimitive
pub data PrimitiveType : Type 0 where
  box sphere cylinder : PrimitiveType

pub record SolidPrimitive (W : Type 0) : Type 0 where
  pub type : PrimitiveType
  pub dimensions : List W

-- shapes::Mesh, as flat arrays
pub record ShapeMesh (W : Type 0) : Type 0 where
  pub vertex_count : ℕ
  pub triangle_count : ℕ
  pub vertices : ℕ → W
  pub triangles : ℕ → ℕ

-- shape_msgs/Mesh
pub record Mesh (W : Type 0) : Type 0 where
  pub vertices : List (Vector3 W)
  pub triangles : List (ℕ × ℕ × ℕ)

pub data Operation : Type 0 where
  add_operation move_operation remove_operation : Operation

-- moveit_msgs/CollisionObject; `pose` is none where the program leaves it unset.
pub record CollisionObject (W : Type 0) : Type 0 where
  pub operation : Operation
  pub frame_id : Str
  pub id : Str
  pub pose : Option (Pose W)
  pub meshes : List (Mesh W)
  pub mesh_poses : List (Pose W)
  pub primitives : List (SolidPrimitive W)
  pub primitive_poses : List (Pose W)

-- geometry_msgs/TransformStamped
pub record TransformStamped (W : Type 0) : Type 0 where
  pub frame_id : Str
  pub child_frame_id : Str
  pub translation : Vector3 W
  pub rotation : Quaternion W
