-- ===== src/GraspPlanning/Pipeline/Hand.antt =====
-- The joint group of the gripper and its named states, where PlanGrasps finds them.
use intrinsic_moveit.Prelude.{Str, codes, Dict, List, some, ◌≡◌, refl}
use intrinsic_moveit.Messages.{invalid_group_name, invalid_robot_state}
use intrinsic_moveit.GraspPlanning.Pipeline.Task.{JointGroup, RobotModel}
use intrinsic_moveit.GraspPlanning.Pipeline.Gripper.{GripperPositions, gripper_positions}
use intrinsic_moveit.GraspPlanning.Pipeline.Postures.{BothAgree, gripper_positions-BothAgree}
use intrinsic_moveit.GraspPlanning.Pipeline.Stops.{
  Stops, Ensures-reached, Ensures, is_success, stop_rules, or_stop-some,
}
use intrinsic_moveit.GraspPlanning.Pipeline.{or_stop, reached, gripper_of}

module _ {W : Type 0} (model : RobotModel W) (eef : Str) where
  -- The joints are those of the end effector's group, with the positions of its named states.
  pub record HasGripper (gripper : List Str × GripperPositions W) : Type 0 where
    pub hand : JointGroup W
    pub opened : Dict W
    pub closed : Dict W
    pub is_hand : model.joint_group eef ≡ some hand
    pub is_opened : hand.named_positions (codes "open") ≡ some opened
    pub is_closed : hand.named_positions (codes "closed") ≡ some closed
    pub all_joints : gripper.0 ≡ hand.active_joint_names
    pub agree : BothAgree gripper.0 opened closed gripper.1

  HasGripper-of :
      (hand : JointGroup W) (opened closed : Dict W) (positions : GripperPositions W)
      → or_stop (model.joint_group eef) invalid_group_name ≡ reached hand
      → or_stop (hand.named_positions (codes "open")) invalid_robot_state ≡ reached opened
      → or_stop (hand.named_positions (codes "closed")) invalid_robot_state ≡ reached closed
      → or_stop (gripper_positions hand.active_joint_names opened closed) invalid_robot_state
        ≡ reached positions
      → HasGripper (hand.active_joint_names, positions)
  HasGripper-of hand opened closed positions h o c p = record {
    hand = hand;
    opened = opened;
    closed = closed;
    is_hand = or_stop-some _ _ _ h;
    is_opened = or_stop-some _ _ _ o;
    is_closed = or_stop-some _ _ _ c;
    all_joints = refl;
    agree =
        gripper_positions-BothAgree hand.active_joint_names opened closed positions
          (or_stop-some _ _ _ p);
  }

  pub gripper_of-HasGripper : Ensures HasGripper (gripper_of model eef)
  unfolding gripper_of is_success
  gripper_of-HasGripper = search (stop_rules, Ensures-reached, HasGripper-of) depth 16

  pub gripper_of-Stops : Stops (gripper_of model eef)
  gripper_of-Stops = gripper_of-HasGripper.stops
