-- ===== src/SceneSync/Poses.antt =====
-- An independent description of the poses and primitives of an object's messages, for the theorems on
-- moveit_planning_service/src/moveit_scene_synchronizer.cpp.
use intrinsic_moveit.Prelude.{
  ℕ, Str, contains, lookup, List, [], ◌∷◌, Option, none, some, Bool, true, false, not, ◌&&◌,
}
use intrinsic_moveit.Messages.{Pose}
use intrinsic_moveit.SceneSync.World.{SolidPrimitive}
use intrinsic_moveit.SceneSync.Data.{Data}

module _ {W : Type 0} where
  -- A mesh comes first where an id has both.
  abbrev pub is_mesh : Data W → Str → Bool
  is_mesh s id = contains id s.renderables_collision

  abbrev pub is_primitive : Data W → Str → Bool
  is_primitive s id =
      not (contains id s.renderables_collision) && contains id s.primitives_collision

  abbrev pub pose_if : Bool → Option (Pose W) → List (Pose W) → List (Pose W)
  pose_if false pose rest = rest
  pose_if true none rest = rest
  pose_if true (some pose) rest = pose ∷ rest

  -- The relative poses of those ids that pass a test, in their order.
  abbrev pub poses_where : (Str → Bool) → Data W → List Str → List (Pose W)
  poses_where p s [] = []
  poses_where p s (id ∷ ids) = pose_if (p id) (lookup id s.relative_mesh_pose) (poses_where p s ids)

  -- The primitive of an id without a mesh.
  abbrev pub primitive_only :
      Option (List ℕ)
      → Option (SolidPrimitive W)
      → List (SolidPrimitive W)
      → List (SolidPrimitive W)
  primitive_only (some gltf) primitive rest = rest
  primitive_only none none rest = rest
  primitive_only none (some primitive) rest = primitive ∷ rest

  -- The primitives of those ids that have no mesh, in their order.
  abbrev pub primitives_where : Data W → List Str → List (SolidPrimitive W)
  primitives_where s [] = []
  primitives_where s (id ∷ ids) =
      primitive_only (lookup id s.renderables_collision) (lookup id s.primitives_collision)
        (primitives_where s ids)
