-- ===== src/GraspPlanning/ObjectGeometry/Contains.antt =====
-- The extent of an object's meshes contains each of their vertices.
use intrinsic_moveit.Prelude.{
  ℕ, ◌+◌, All, All-imp, All-append, All-append_parts, List, [], ◌∷◌, ◌++◌, some, Bool, true, false,
  Bool-cases, ◌≡◌, inl, inr, if◌then◌else◌, sym, ap,
}
use intrinsic_moveit.Double.{Double, IsOrdered, min_double, max_double}
use intrinsic_moveit.Messages.{Vector3, Pose}
use intrinsic_moveit.SceneSync.World.{Mesh, CollisionObject}
use intrinsic_moveit.GraspPlanning.ObjectGeometry.{
  Isometries, ObjectBoundingBox, Extent, minus, middle, moved, transform_at, add_vertex,
  add_vertices, add_meshes_extent, no_extent, box_of_extent, first_box, compute_object_bounding_box,
}
use intrinsic_moveit.GraspPlanning.ObjectGeometry.Laws.{some_if}

module _ {W : Type 0} ⦃d : Double W⦄ (laws : IsOrdered W) where
  lt_irrefl : (x : W) → d.lt x x ≡ false
  lt_irrefl x = elim (Bool-cases (d.lt x x)) [ inl e ↦ laws.lt_asym x x e | inr e ↦ e ]

  min-new : (m v : W) → d.lt v (min_double m v) ≡ false
  min-new m v = elim (Bool-cases (d.lt v m)) [ inl e ↦ rw e (lt_irrefl v) | inr e ↦ rw e e ]

  min-old : (m v u : W) → d.le m m ≡ true → d.lt u m ≡ false → d.lt u (min_double m v) ≡ false
  min-old m v u n h = elim (Bool-cases (d.lt v m)) [
    | inl e ↦ rw e (laws.not_lt_trans u m v n h (laws.lt_asym v m e))
    | inr e ↦ rw e h
  ]

  max-new : (m v : W) → d.lt (max_double m v) v ≡ false
  max-new m v = elim (Bool-cases (d.lt m v)) [ inl e ↦ rw e (lt_irrefl v) | inr e ↦ rw e e ]

  max-old : (m v u : W) → d.le m m ≡ true → d.lt m u ≡ false → d.lt (max_double m v) u ≡ false
  max-old m v u n h = elim (Bool-cases (d.lt m v)) [
    | inl e ↦ rw e (laws.not_lt_trans v m u n (laws.lt_asym m v e) h)
    | inr e ↦ rw e h
  ]

module _ {W : Type 0} ⦃d : Double W⦄ where
  -- No coordinate is NaN.
  pub record AreNumbers (v : Vector3 W) : Type 0 where
    pub x_number : d.le v.x v.x ≡ true
    pub y_number : d.le v.y v.y ≡ true
    pub z_number : d.le v.z v.z ≡ true

  -- The vertex is not below the minimum and not above the maximum.
  pub record IsWithin (e : Extent W) (v : Vector3 W) : Type 0 where
    pub x_low : d.lt v.x e.minimum.x ≡ false
    pub y_low : d.lt v.y e.minimum.y ≡ false
    pub z_low : d.lt v.z e.minimum.z ≡ false
    pub x_high : d.lt e.maximum.x v.x ≡ false
    pub y_high : d.lt e.maximum.y v.y ≡ false
    pub z_high : d.lt e.maximum.z v.z ≡ false

  record AreNumbersIn (e : Extent W) : Type 0 where
    low : AreNumbers e.minimum
    high : AreNumbers e.maximum

  pick-number :
      (c : Bool) (x y : W)
      → d.le x x ≡ true
      → d.le y y ≡ true
      → d.le (if c then x else y) (if c then x else y) ≡ true
  pick-number true x y h k = h
  pick-number false x y h k = k

  add_vertex-AreNumbersIn :
      (e : Extent W) (v : Vector3 W) → AreNumbers v → AreNumbersIn e → AreNumbersIn (add_vertex e v)
  unfolding add_vertex
  add_vertex-AreNumbersIn e v n m = record {
    low = record {
      x_number = pick-number _ _ _ n.x_number m.low.x_number;
      y_number = pick-number _ _ _ n.y_number m.low.y_number;
      z_number = pick-number _ _ _ n.z_number m.low.z_number;
    };
    high = record {
      x_number = pick-number _ _ _ n.x_number m.high.x_number;
      y_number = pick-number _ _ _ n.y_number m.high.y_number;
      z_number = pick-number _ _ _ n.z_number m.high.z_number;
    };
  }

module _ {W : Type 0} ⦃d : Double W⦄ (laws : IsOrdered W) where
  add_vertex-IsWithin_new : (e : Extent W) (v : Vector3 W) → IsWithin (add_vertex e v) v
  unfolding add_vertex
  add_vertex-IsWithin_new e v = record {
    x_low = min-new laws e.minimum.x v.x;
    y_low = min-new laws e.minimum.y v.y;
    z_low = min-new laws e.minimum.z v.z;
    x_high = max-new laws e.maximum.x v.x;
    y_high = max-new laws e.maximum.y v.y;
    z_high = max-new laws e.maximum.z v.z;
  }

  add_vertex-IsWithin :
      (e : Extent W) (v u : Vector3 W) → AreNumbersIn e → IsWithin e u → IsWithin (add_vertex e v) u
  unfolding add_vertex
  add_vertex-IsWithin e v u n w = record {
    x_low = min-old laws e.minimum.x v.x u.x n.low.x_number w.x_low;
    y_low = min-old laws e.minimum.y v.y u.y n.low.y_number w.y_low;
    z_low = min-old laws e.minimum.z v.z u.z n.low.z_number w.z_low;
    x_high = max-old laws e.maximum.x v.x u.x n.high.x_number w.x_high;
    y_high = max-old laws e.maximum.y v.y u.y n.high.y_number w.y_high;
    z_high = max-old laws e.maximum.z v.z u.z n.high.z_number w.z_high;
  }

  -- What more vertices do: the old ones stay within, and the new ones are.
  record Grows (e f : Extent W) (vs : List (Vector3 W)) : Type 0 where
    numbers : AreNumbersIn f
    old : (u : Vector3 W) → IsWithin e u → IsWithin f u
    new : All (IsWithin f) vs

  add_vertices-Grows :
      (vs : List (Vector3 W)) (e : Extent W)
      → All AreNumbers vs
      → AreNumbersIn e
      → Grows e (add_vertices e vs) vs
  unfolding add_vertices
  add_vertices-Grows [] e a n = record { numbers = n; old = λ u w. w; new = tt }
  add_vertices-Grows (v ∷ vs) e a n =
      let g = add_vertices-Grows vs (add_vertex e v) a.1 (add_vertex-AreNumbersIn e v a.0 n) in
      record {
        numbers = g.numbers;
        old = λ u w. g.old u (add_vertex-IsWithin e v u n w);
        new = (g.old v (add_vertex-IsWithin_new e v), g.new);
      }

module _ {W I : Type 0} ⦃d : Double W⦄ (eigen : Isometries W I) where
  -- The vertices of the meshes from number `i` on, in the frame of the object.
  abbrev pub vertices_of : List (Pose W) → ℕ → List (Mesh W) → List (Vector3 W)
  vertices_of poses i [] = []
  vertices_of poses i (mesh ∷ rest) =
      moved eigen (transform_at eigen poses i) mesh.vertices ++ vertices_of poses (i + 1) rest

  add_meshes-Grows :
      (laws : IsOrdered W) (poses : List (Pose W)) (meshes : List (Mesh W)) (i : ℕ) (e : Extent W)
      → All AreNumbers (vertices_of poses i meshes)
      → AreNumbersIn e
      → Grows laws e (add_meshes_extent eigen poses i e meshes) (vertices_of poses i meshes)
  unfolding add_meshes_extent
  add_meshes-Grows laws poses [] i e a n = record { numbers = n; old = λ u w. w; new = tt }
  add_meshes-Grows laws poses (mesh ∷ rest) i e a n =
      let vs = moved eigen (transform_at eigen poses i) mesh.vertices in
      let (here, later) = All-append_parts AreNumbers vs (vertices_of poses (i + 1) rest) a in
      let g = add_vertices-Grows laws vs e here n in
      let h = add_meshes-Grows laws poses rest (i + 1) (add_vertices e vs) later g.numbers in
      record {
        numbers = h.numbers;
        old = λ u w. h.old u (g.old u w);
        new = All-append (IsWithin _) vs _ (All-imp (λ u w. h.old u w) vs g.new) h.new;
      }

  -- The box is as large as an extent that contains the vertices.
  pub record IsEnclosing (vertices : List (Vector3 W)) (b : ObjectBoundingBox W I) : Type 0 where
    pub extent : Extent W
    pub dimensions : b.dimensions ≡ minus extent.maximum extent.minimum
    pub center :
        b.center_transform
        ≡ eigen.with_translation eigen.identity (middle extent.minimum extent.maximum)
    pub contains_all : All (IsWithin extent) vertices

  -- Without primitives, and with no NaN among the vertices, the box of an object has the size and
  -- the center of an extent that contains each vertex of its meshes, moved to the object's frame.
  pub compute_object_bounding_box-IsEnclosing :
      IsOrdered W
      → (object : CollisionObject W) (b : ObjectBoundingBox W I) → object.primitives ≡ []
      → d.le eigen.infinity eigen.infinity ≡ true
      → d.le eigen.minus_infinity eigen.minus_infinity ≡ true
      → All AreNumbers (vertices_of object.mesh_poses 0 object.meshes)
      → compute_object_bounding_box eigen object ≡ some b
      → IsEnclosing (vertices_of object.mesh_poses 0 object.meshes) b
  unfolding compute_object_bounding_box first_box box_of_extent
  compute_object_bounding_box-IsEnclosing laws object b p i j a h =
      let start = no_extent eigen in
      let e = add_meshes_extent eigen object.mesh_poses 0 start object.meshes in
      let g = add_meshes-Grows laws object.mesh_poses object.meshes 0 start a (record {
        low = record { x_number = i; y_number = i; z_number = i };
        high = record { x_number = j; y_number = j; z_number = j };
      }) in
      elim (Bool-cases e.found_vertex) [
        | inl k ↦
            let (_, q) = some_if _ _ b (rw (p, k) at h) in
            record {
              extent = e;
              dimensions = sym (ap (λ (x : ObjectBoundingBox W I). x.dimensions) q);
              center = sym (ap (λ (x : ObjectBoundingBox W I). x.center_transform) q);
              contains_all = g.new;
            }
        | inr k ↦ absurd (cc (rw (p, k) at h))
      ]
