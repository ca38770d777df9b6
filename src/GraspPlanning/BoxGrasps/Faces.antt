-- ===== src/GraspPlanning/BoxGrasps/Faces.antt =====
-- Where the generated grasps stand and where they point: on the middle of a face, into the box.
use intrinsic_moveit.GraspPlanning.Pipeline.Ranking.{isometry_to_pose}
use intrinsic_moveit.Prelude.{
  ◌∷◌, ℕ, zero, suc, Option, none, some, Bool, true, false, not, ◌≡◌, List, ℤ, Str, Memᴰ, pos, ◌∷◌,
}
use intrinsic_moveit.Double.{Double, nought}
use intrinsic_moveit.Messages.{Vector3}
use intrinsic_moveit.GraspPlanning.BoxGrasps.Poses.{
  Axis, unit_x, unit_y, unit_z, Rotations, pi, half, minus, BoxGrasp, active_surfaces,
}

module _ {W : Type 0} ⦃d : Double W⦄ where
  abbrev pub one : W
  one = d.ratio 1 1

  -- The vector of a length along an axis.
  abbrev pub along : Axis → W → Vector3 W
  along unit_x v = record { x = v; y = nought; z = nought }
  along unit_y v = record { x = nought; y = v; z = nought }
  along unit_z v = record { x = nought; y = nought; z = v }

  abbrev pub signed : Bool → W → W
  signed true v = v
  signed false v = minus v

abbrev pub component : {W : Type 0} → Axis → Vector3 W → W
component unit_x v = v.x
component unit_y v = v.y
component unit_z v = v.z

-- A face of the box by the direction that it looks in.
pub record Face : Type 0 where
  pub axis : Axis
  pub positive : Bool

-- The numbers of the faces in grasp_annotations.proto: +X, -X, +Y, -Y, +Z, -Z.
abbrev pub face_of : ℕ → Option Face
face_of zero = some (record { axis = unit_x; positive = true })
face_of (suc zero) = some (record { axis = unit_x; positive = false })
face_of (suc (suc zero)) = some (record { axis = unit_y; positive = true })
face_of (suc (suc (suc zero))) = some (record { axis = unit_y; positive = false })
face_of (suc (suc (suc (suc zero)))) = some (record { axis = unit_z; positive = true })
face_of (suc (suc (suc (suc (suc zero))))) = some (record { axis = unit_z; positive = false })
face_of (suc (suc (suc (suc (suc (suc n)))))) = none

module _ {W I R : Type 0} ⦃d : Double W⦄ where
  -- What Eigen and <cmath> say of rotations, in exact arithmetic: how a rotation moves the Z axis,
  -- how a product does, and the parts of an isometry.
  pub record IsExact (rotations : Rotations W I R) (rotate : R → Vector3 W → Vector3 W)
      (linear : I → R) (sin cos : W → W) : Type 0 where
    pub rotate-times :
        (r q : R) (v : Vector3 W) → rotate (rotations.times r q) v ≡ rotate r (rotate q v)
    pub rotate-identity : (v : Vector3 W) → rotate rotations.identity_matrix v ≡ v
    pub about_x :
        (t : W)
        → rotate (rotations.angle_axis t unit_x) (along unit_z one)
          ≡ record { x = nought; y = minus (sin t); z = cos t }
    pub about_y :
        (t : W)
        → rotate (rotations.angle_axis t unit_y) (along unit_z one)
          ≡ record { x = sin t; y = nought; z = cos t }
    pub about_z :
        (t : W) → rotate (rotations.angle_axis t unit_z) (along unit_z one) ≡ along unit_z one
    pub sin-half_pi : sin (half pi) ≡ one
    pub cos-half_pi : cos (half pi) ≡ nought
    pub sin-half-minus_pi : sin (half (minus pi)) ≡ minus one
    pub cos-half-minus_pi : cos (half (minus pi)) ≡ nought
    pub sin-pi : sin pi ≡ nought
    pub cos-pi : cos pi ≡ minus one
    pub minus-minus : (x : W) → minus (minus x) ≡ x
    pub minus-nought : minus {W = W} nought ≡ nought
    pub translation_of :
        (i : I) (v : Vector3 W) (r : R)
        → rotations.transforms.translation
            (rotations.with_linear (rotations.transforms.isometries.with_translation i v) r)
          ≡ v
    pub linear_of : (i : I) (r : R) → linear (rotations.with_linear i r) ≡ r

  module _ (rotations : Rotations W I R) (rotate : R → Vector3 W → Vector3 W) (linear : I → R)
      (sin cos : W → W) (exact : IsExact rotations rotate linear sin cos) (dims : Vector3 W) where
    -- A translation and a rotation for a face: to its middle, with the Z axis turned into the box.
    pub record Fits (face : Face) (t_surf : Vector3 W) (r_base : R) : Type 0 where
      pub at_middle :
          t_surf ≡ along face.axis (half (signed face.positive (component face.axis dims)))
      pub points_in :
          rotate r_base (along unit_z one) ≡ along face.axis (signed (not face.positive) one)

    abbrev FitsFace : Option Face → Option (Vector3 W × R) → Type 0
    FitsFace none none = Unit
    FitsFace none (some frame) = ⊥
    FitsFace (some face) none = ⊥
    FitsFace (some face) (some (t_surf, r_base)) = Fits face t_surf r_base

    module _ {C : Type 0} (surfaces : List ℤ) (num_rotations : ℤ) (center : I) (object_frame : Str)
        (pregrasp grasp : Option Str) (state : C) where
      -- The grasp is for a face that is processed: in the object's frame, at the middle of the face,
      -- and its Z axis looks into the box, both in the frame of the box's center.
      pub record IsOnFace (g : BoxGrasp W C) : Type 0 where
        pub number : ℕ
        pub processed : Memᴰ (pos number) (active_surfaces surfaces)
        pub face : Face
        pub is_face : face_of number ≡ some face
        pub local : I
        pub in_frame : g.target_pose.frame_id ≡ object_frame
        pub posed :
            g.target_pose.pose
            ≡ isometry_to_pose rotations.transforms (rotations.transforms.compose center local)
        pub at_middle :
            rotations.transforms.translation local
            ≡ along face.axis (half (signed face.positive (component face.axis dims)))
        pub points_in :
            rotate (linear local) (along unit_z one)
            ≡ along face.axis (signed (not face.positive) one)
