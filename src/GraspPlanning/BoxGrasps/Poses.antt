-- ===== src/GraspPlanning/BoxGrasps/Poses.antt =====
-- moveit_planning_service/src/generate_box_grasp_poses.cpp: the two loops of
-- GenerateBoxGraspPoses::compute, over the surfaces of the box and the rotations.
use intrinsic_moveit.Prelude.{
  ℕ, zero, suc, ◌+◌, ℤ, pos, negsuc, Str, codes, decimal, List, [], ◌∷◌, ◌++◌, Option, none, some,
}
use intrinsic_moveit.Double.{Double, nought}
use intrinsic_moveit.Messages.{Vector3, PoseStamped}
use intrinsic_moveit.GraspPlanning.Pipeline.Task.{rotations_to_use}
use intrinsic_moveit.GraspPlanning.Pipeline.Ranking.{Transforms, isometry_to_pose}

pub data Axis : Type 0 where
  unit_x unit_y unit_z : Axis

-- Eigen's rotation matrices, and the isometries with them.
pub record Rotations (W I R : Type 0) : Type 0 where
  pub transforms : Transforms W I
  -- AngleAxisd(angle, axis).toRotationMatrix()
  pub angle_axis : W → Axis → R
  pub identity_matrix : R
  pub times : R → R → R
  -- linear() = r
  pub with_linear : I → R → I

pub record BoxGrasp (W C : Type 0) : Type 0 where
  pub state : C
  pub target_pose : PoseStamped W
  pub pregrasp : Option Str
  pub grasp : Option Str
  pub cost : W
  pub comment : Str

module _ {W : Type 0} ⦃d : Double W⦄ where
  -- M_PI
  abbrev pub pi : W
  pi = d.ratio 314159265358979323846 100000000000000000000

  abbrev pub half : W → W
  half x = d.div x (d.ratio 2 1)

  -- -x
  abbrev pub minus : W → W
  minus x = d.sub nought x

unfoldable pub comment_of : ℕ → ℕ → Str
comment_of surface i = codes "surface_" ++ (decimal surface ++ (codes "_rot_" ++ decimal i))

module _ {W I R : Type 0} ⦃d : Double W⦄ (rotations : Rotations W I R) (dims : Vector3 W) where
  -- The case of a surface: t_surf and r_base.
  unfoldable pub surface_frame : ℕ → Option (Vector3 W × R)
  surface_frame zero = some (
    record { x = half dims.x; y = nought; z = nought },
    rotations.angle_axis (half (minus pi)) unit_y,
  )
  surface_frame (suc zero) = some (
    record { x = half (minus dims.x); y = nought; z = nought },
    rotations.angle_axis (half pi) unit_y,
  )
  surface_frame (suc (suc zero)) =
      some
        (record { x = nought; y = half dims.y; z = nought }, rotations.angle_axis (half pi) unit_x)
  surface_frame (suc (suc (suc zero))) = some (
    record { x = nought; y = half (minus dims.y); z = nought },
    rotations.angle_axis (half (minus pi)) unit_x,
  )
  surface_frame (suc (suc (suc (suc zero)))) =
      some (record { x = nought; y = nought; z = half dims.z }, rotations.angle_axis pi unit_x)
  surface_frame (suc (suc (suc (suc (suc zero))))) =
      some (record { x = nought; y = nought; z = half (minus dims.z) }, rotations.identity_matrix)
  surface_frame (suc (suc (suc (suc (suc (suc n)))))) = none

-- The surfaces to process.
unfoldable pub active_surfaces : List ℤ → List ℤ
active_surfaces [] = pos 0 ∷ pos 1 ∷ pos 2 ∷ pos 3 ∷ pos 4 ∷ pos 5 ∷ []
active_surfaces (s ∷ ss) = s ∷ ss

module _ {W I R C : Type 0} ⦃d : Double W⦄ (rotations : Rotations W I R) (surfaces : List ℤ)
    (num_rotations : ℤ) (dims : Vector3 W) (center : I) (object_frame : Str)
    (pregrasp grasp : Option Str) (state : C) where
  abbrev pub angle_step : W
  angle_step = d.div (d.mul (d.ratio 2 1) pi) (d.of_int (pos (rotations_to_use num_rotations)))

  -- t_surface_local of a round
  unfoldable pub surface_local : Vector3 W → R → ℕ → I
  surface_local t_surf r_base i =
      let theta = d.mul (d.of_int (pos i)) angle_step in
      let iso = rotations.transforms.isometries in
      rotations.with_linear (iso.with_translation iso.identity t_surf)
        (rotations.times r_base (rotations.angle_axis theta unit_z))

  unfoldable pub grasp_at : ℕ → Vector3 W × R → ℕ → BoxGrasp W C
  grasp_at surface (t_surf, r_base) i = record {
    state = state;
    target_pose = record {
      frame_id = object_frame;
      pose =
          isometry_to_pose rotations.transforms
            (rotations.transforms.compose center (surface_local t_surf r_base i));
    };
    pregrasp = pregrasp;
    grasp = grasp;
    cost = nought;
    comment = comment_of surface i;
  }

  -- The rounds from `i` on.
  unfoldable pub rotation_loop : ℕ → Vector3 W × R → ℕ → ℕ → List (BoxGrasp W C)
  rotation_loop surface frame i zero = []
  rotation_loop surface frame i (suc rounds) =
      grasp_at surface frame i ∷ rotation_loop surface frame (i + 1) rounds

  unfoldable pub frame_grasps : ℕ → Option (Vector3 W × R) → List (BoxGrasp W C)
  frame_grasps surface none = []
  frame_grasps surface (some frame) = rotation_loop surface frame 0 (rotations_to_use num_rotations)

  unfoldable pub surface_grasps : ℤ → List (BoxGrasp W C)
  surface_grasps (pos surface) = frame_grasps surface (surface_frame rotations dims surface)
  surface_grasps (negsuc n) = []

  unfoldable pub surface_loop : List ℤ → List (BoxGrasp W C)
  surface_loop [] = []
  surface_loop (surface ∷ rest) = surface_grasps surface ++ surface_loop rest

  unfoldable pub box_grasps : List (BoxGrasp W C)
  box_grasps = surface_loop (active_surfaces surfaces)
