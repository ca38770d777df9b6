-- ===== src/GraspPlanning/Pipeline/Gripper.antt =====
-- moveit_planning_service/src/grasp_planning_pipeline.cpp: PlanGrasps, what every grasp says of the
-- gripper: its postures, the approach and the retreats. The stamps are left out.
use intrinsic_moveit.Prelude.{
  Str, codes, lookup, Dict, List, [], ◌∷◌, Option, none, some, if◌then◌else◌, text_or_default,
}
use intrinsic_moveit.Double.{Double, nought, is_pos}
use intrinsic_moveit.Messages.{JointTrajectory, GripperTranslation, PlanGraspsGoal}
use intrinsic_moveit.GraspPlanning.Pipeline.Task.{retract_distance}

-- The positions of the gripper's joints, open and closed.
pub record GripperPositions (W : Type 0) : Type 0 where
  pub open_positions : List W
  pub closed_positions : List W

-- What a grasp says of the gripper.
pub record GripperMotion (W : Type 0) : Type 0 where
  pub open_posture : JointTrajectory W
  pub closed_posture : JointTrajectory W
  pub approach : GripperTranslation W
  pub grasp_retreat : GripperTranslation W
  pub place_retreat : GripperTranslation W

-- One round of the loop over the joints, before the rest of it: `none` is a joint that one of the
-- named states lacks.
unfoldable pub joint_positions :
    {W : Type 0} → Option W → Option W → Option (GripperPositions W) → Option (GripperPositions W)
joint_positions none closed rest = none
joint_positions (some o) none rest = none
joint_positions (some o) (some c) none = none
joint_positions (some o) (some c) (some rest) = some (record {
  open_positions = o ∷ rest.open_positions;
  closed_positions = c ∷ rest.closed_positions;
})

unfoldable pub gripper_positions :
    {W : Type 0} → List Str → Dict W → Dict W → Option (GripperPositions W)
unfolding joint_positions
gripper_positions [] opened closed = some (record { open_positions = []; closed_positions = [] })
gripper_positions (joint ∷ joints) opened closed =
    joint_positions (lookup joint opened) (lookup joint closed)
      (gripper_positions joints opened closed)

module _ {W : Type 0} ⦃d : Double W⦄ (goal : PlanGraspsGoal W) where
  unfoldable pub motion_duration : W
  motion_duration =
      if is_pos goal.gripper_motion_duration_sec
      then goal.gripper_motion_duration_sec
      else d.ratio 5 10

  unfoldable pub posture : Str → List Str → List W → JointTrajectory W
  posture frame joints positions = record {
    frame_id = frame;
    joint_names = joints;
    points = record { positions = positions; time_from_start = motion_duration } ∷ [];
  }

  -- A translation of the IK frame along its z axis, by the retract distance and at least half of it.
  unfoldable pub along_z : W → GripperTranslation W
  along_z z = record {
    frame_id = text_or_default goal.tool_frame (codes "hande_tcp");
    direction = record { x = nought; y = nought; z = z };
    desired_distance = d.to_float (retract_distance goal);
    min_distance = d.to_float (d.mul (retract_distance goal) (d.ratio 1 2));
  }

  unfoldable pub gripper_motion : Str → List Str → GripperPositions W → GripperMotion W
  gripper_motion frame joints positions = record {
    open_posture = posture frame joints positions.open_positions;
    closed_posture = posture frame joints positions.closed_positions;
    approach = along_z (d.ratio 1 1);
    grasp_retreat = along_z (d.sub nought (d.ratio 1 1));
    place_retreat = along_z (d.sub nought (d.ratio 1 1));
  }
