-- ===== src/GraspPlanning/ObjectGeometry/Laws.antt =====
-- The box of an object has a positive size, and the extent of its meshes contains each vertex.
use intrinsic_moveit.Prelude.{
  subst, ℕ, ◌+◌, List, [], ◌∷◌, Option, none, some, Bool, true, false, Bool-cases, ◌≡◌, refl, arith,
  inl, inr, if◌then◌else◌,
}
use intrinsic_moveit.Double.{Double}
use intrinsic_moveit.Messages.{Vector3, Pose}
use intrinsic_moveit.SceneSync.World.{SolidPrimitive, CollisionObject}
use intrinsic_moveit.GraspPlanning.ObjectGeometry.{
  Isometries, ObjectBoundingBox, Extent, any_nonpositive, box_of_extent, box_or, first_box,
  box_dimensions, transform_at, compute_object_bounding_box,
}

pub some_if :
    {A : Type 0} (c : Bool) (x b : A)
    → (if c then none else some x) ≡ some b
    → (c ≡ false) × (x ≡ b)
some_if true x b h = absurd (cc)
some_if false x b h = (refl, ground arith)

module _ {W I : Type 0} ⦃d : Double W⦄ (eigen : Isometries W I) where
  -- No size of the box is zero or less.
  abbrev pub IsPositive : ObjectBoundingBox W I → Type 0
  IsPositive b = any_nonpositive b.dimensions ≡ false

  box_of_extent-IsPositive :
      (e : Extent W) (b : ObjectBoundingBox W I) → box_of_extent eigen e ≡ some b → IsPositive b
  unfolding box_of_extent
  box_of_extent-IsPositive e b h = elim (Bool-cases e.found_vertex) [
    | inl k ↦
        let (p, q) = some_if _ _ b (rw k at h) in
        subst (λ (x : ObjectBoundingBox W I). any_nonpositive x.dimensions ≡ false) q p
    | inr k ↦ absurd (cc (rw k at h))
  ]

  box_or-IsPositive :
      (o : Option (Vector3 W)) (transform : I) (rest : Option (ObjectBoundingBox W I))
      (b : ObjectBoundingBox W I)
      → (rest ≡ some b → IsPositive b)
      → box_or eigen o transform rest ≡ some b
      → IsPositive b
  unfolding box_or
  box_or-IsPositive none transform rest b r h = r h
  box_or-IsPositive (some v) transform rest b r h = elim (Bool-cases (any_nonpositive v)) [
    | inl e ↦ r (rw e at h)
    | inr e ↦
        (let q : record { dimensions = v; center_transform = transform } ≡ b = cc (rw e at h) in
          subst (λ (x : ObjectBoundingBox W I). any_nonpositive x.dimensions ≡ false) q e)
  ]

  first_box-IsPositive :
      (poses : List (Pose W)) (primitives : List (SolidPrimitive W)) (i : ℕ)
      (otherwise : Option (ObjectBoundingBox W I)) (b : ObjectBoundingBox W I)
      → (otherwise ≡ some b → IsPositive b)
      → first_box eigen poses i primitives otherwise ≡ some b
      → IsPositive b
  unfolding first_box
  first_box-IsPositive poses [] i otherwise b r h = r h
  first_box-IsPositive poses (p ∷ ps) i otherwise b r h =
      box_or-IsPositive (box_dimensions p.type p.dimensions) (transform_at eigen poses i) _ b
        (first_box-IsPositive poses ps (i + 1) otherwise b r) h

  -- The box that is found for an object, from a primitive or from the meshes, has no size that is
  -- zero or less.
  pub compute_object_bounding_box-IsPositive :
      (object : CollisionObject W) (b : ObjectBoundingBox W I)
      → compute_object_bounding_box eigen object ≡ some b
      → IsPositive b
  unfolding compute_object_bounding_box
  compute_object_bounding_box-IsPositive object b h =
      first_box-IsPositive object.primitive_poses object.primitives 0 _ b
        (box_of_extent-IsPositive _ b) h
