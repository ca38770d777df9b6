-- ===== src/GraspPlanning/ObjectGeometry/Tests.antt =====
-- The box of a mesh with two vertices, with translations for the isometries.
use intrinsic_moveit.Prelude.{ℤ, pos, negsuc, ◌+ℤ◌, codes, [], ◌∷◌, none, some, ◌≡◌, refl}
use intrinsic_moveit.Double.{milli_double, milli-IsOrdered}
use intrinsic_moveit.Messages.{Vector3}
use intrinsic_moveit.SceneSync.World.{Mesh, CollisionObject, add_operation}
use intrinsic_moveit.GraspPlanning.ObjectGeometry.{
  Isometries, ObjectBoundingBox, compute_object_bounding_box, first_box, add_meshes_extent,
  add_vertices, add_vertex, box_of_extent, transform_at,
}
use intrinsic_moveit.GraspPlanning.ObjectGeometry.Contains.{
  IsEnclosing, vertices_of, compute_object_bounding_box-IsEnclosing,
}

abbrev at : ℤ → ℤ → ℤ → Vector3 ℤ
at x y z = record { x = x; y = y; z = z }

abbrev translations : Isometries ℤ (Vector3 ℤ)
translations = record {
  identity = at (pos 0) (pos 0) (pos 0);
  with_translation = λ i v. v;
  with_rotation = λ i q. i;
  squared_norm = λ q. pos 1000;
  apply = λ i v. at (i.x +ℤ v.x) (i.y +ℤ v.y) (i.z +ℤ v.z);
  infinity = pos 1000000;
  minus_infinity = negsuc 1000000;
}

abbrev mesh : Mesh ℤ
mesh = record {
  vertices = at (pos 0) (pos 300) (pos 0) ∷ at (pos 100) (pos 100) (pos 400) ∷ [];
  triangles = [];
}

abbrev object : CollisionObject ℤ
object = record {
  operation = add_operation;
  frame_id = codes "block";
  id = codes "block";
  pose = none;
  meshes = mesh ∷ [];
  mesh_poses = [];
  primitives = [];
  primitive_poses = [];
}

abbrev box_of_mesh : ObjectBoundingBox ℤ (Vector3 ℤ)
box_of_mesh = record {
  dimensions = at (pos 100) (pos 200) (pos 400);
  center_transform = at (pos 50) (pos 200) (pos 200);
}

found : compute_object_bounding_box translations object ≡ some box_of_mesh
unfolding compute_object_bounding_box first_box add_meshes_extent add_vertices add_vertex
    box_of_extent transform_at
found = refl

compute_object_bounding_box-IsEnclosing_example :
    IsEnclosing translations (vertices_of translations [] 0 (mesh ∷ [])) box_of_mesh
unfolding transform_at
compute_object_bounding_box-IsEnclosing_example =
    compute_object_bounding_box-IsEnclosing translations milli-IsOrdered object box_of_mesh refl
      refl refl
      (
        record { x_number = refl; y_number = refl; z_number = refl },
        (record { x_number = refl; y_number = refl; z_number = refl }, tt),
      )
      found
