-- ===== src/GraspPlanning/Pipeline/Postures.antt =====
-- The postures of a grasp are the named states of the gripper.
use mathlib.Core.Option.{some_inj}
use intrinsic_moveit.Prelude.{
  Str, lookup, Dict, List, [], ◌∷◌, Option-cases, some, map, ◌≡◌, refl, inl, inr, subst,
}
use intrinsic_moveit.Double.{Double}
use intrinsic_moveit.Messages.{JointTrajectory, JointTrajectoryPoint, PlanGraspsGoal}
use intrinsic_moveit.GraspPlanning.Pipeline.Gripper.{
  GripperPositions, joint_positions, gripper_positions, posture, motion_duration,
}

-- Each joint has the position that the named state gives it.
abbrev pub Agrees : {W : Type 0} → List Str → Dict W → List W → Type 0
Agrees joints state positions = map (λ joint. lookup joint state) joints ≡ map some positions

-- With the positions of both named states.
abbrev pub BothAgree : {W : Type 0} → List Str → Dict W → Dict W → GripperPositions W → Type 0
BothAgree joints opened closed positions =
    Agrees joints opened positions.open_positions × Agrees joints closed positions.closed_positions

pub gripper_positions-BothAgree :
    {W : Type 0} (joints : List Str) (opened closed : Dict W) (positions : GripperPositions W)
    → gripper_positions joints opened closed ≡ some positions
    → BothAgree joints opened closed positions
unfolding gripper_positions joint_positions
gripper_positions-BothAgree [] opened closed positions h =
    subst (BothAgree [] opened closed) (some_inj.0 h) (refl, refl)
gripper_positions-BothAgree (joint ∷ joints) opened closed positions h =
    elim (Option-cases (lookup joint opened)) [
      | inl e ↦ absurd (cc (rw e at h))
      | inr (o, e) ↦ elim (Option-cases (lookup joint closed)) [
        | inl f ↦ absurd (cc (rw (e, f) at h))
        | inr (c, f) ↦ elim (Option-cases (gripper_positions joints opened closed)) [
          | inl g ↦ absurd (cc (rw (e, f, g) at h))
          | inr (rest, g) ↦
              let (p, q) = gripper_positions-BothAgree joints opened closed rest g in
              subst (BothAgree (joint ∷ joints) opened closed) (some_inj.0 (rw (e, f, g) at h))
                (rw (e, f, p, q) (refl, refl))
        ]
      ]
    ]

-- A trajectory of one point takes the joints to the named state in the duration of the motion.
pub record IsPosture {W : Type 0} ⦃d : Double W⦄ (goal : PlanGraspsGoal W) (joints : List Str)
    (state : Dict W) (trajectory : JointTrajectory W) : Type 0 where
  pub all_joints : trajectory.joint_names ≡ joints
  pub point : JointTrajectoryPoint W
  pub one_point : trajectory.points ≡ point ∷ []
  pub in_time : point.time_from_start ≡ motion_duration goal
  pub at_state : Agrees joints state point.positions

pub posture-IsPosture :
    {W : Type 0} ⦃d : Double W⦄ (goal : PlanGraspsGoal W) (frame : Str) (joints : List Str)
    (state : Dict W) (positions : List W)
    → Agrees joints state positions
    → IsPosture goal joints state (posture goal frame joints positions)
unfolding posture
posture-IsPosture goal frame joints state positions h = record {
  all_joints = refl;
  point = record { positions = positions; time_from_start = motion_duration goal };
  one_point = refl;
  in_time = refl;
  at_state = h;
}
