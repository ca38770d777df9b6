-- ===== src/GraspPlanning/Pipeline/Ranking.antt =====
-- moveit_planning_service/src/grasp_planning_pipeline.cpp: PlanGrasps, the loop that takes the ranked
-- grasps from the solutions of the task.
use intrinsic_moveit.GraspPlanning.Pipeline.Gripper.{GripperMotion}
use intrinsic_moveit.GraspPlanning.Pipeline.SubSolution.{find_sub_solution, start}
use intrinsic_moveit.Prelude.{
  ℕ, ◌+◌, Str, codes, leb, List, [], ◌∷◌, ◌++◌, Option, none, some, if◌then◌else◌, decimal,
}
use intrinsic_moveit.Double.{Double, nought, max_double}
use intrinsic_moveit.Messages.{Vector3, Quaternion, Pose, PoseStamped, PlanGraspsGoal, RankedGrasp}
use intrinsic_moveit.PlanningNode.Action.{max_grasps}
use intrinsic_moveit.GraspPlanning.ObjectGeometry.{Isometries, pose_to_isometry}
use intrinsic_moveit.GraspPlanning.Pipeline.Task.{JointGroup, Solution, retract_distance}

-- More of Eigen's isometries.
pub record Transforms (W I : Type 0) : Type 0 where
  pub isometries : Isometries W I
  pub compose : I → I → I
  pub inverse : I → I
  pub translation : I → Vector3 W
  pub rotation : I → Quaternion W

pub record Pregrasp (W I : Type 0) : Type 0 where
  pub positions : List W
  pub pose_world : I

-- The stage "approach object", the fourth of the task.
abbrev pub approach_stage : ℕ
approach_stage = 3

module _ {W I : Type 0} ⦃d : Double W⦄ (transforms : Transforms W I) where
  unfoldable pub isometry_to_pose : I → Pose W
  isometry_to_pose i = record {
    position = transforms.translation i;
    orientation = transforms.rotation i;
  }

  -- What is there at the start of the sub-solution that the approach stage created.
  unfoldable pub approach_start : Solution W I → Option (List W × I)
  approach_start solution =
      elim (find_sub_solution (some solution.sub_solutions) (some approach_stage)) [
        | none ↦ none
        | some sub ↦ start sub
      ]

  -- The start of the approach, or else an IK solution at the retract distance behind the grasp.
  unfoldable pub pregrasp_of : W → PoseStamped W → Solution W I → Option (Pregrasp W I)
  pregrasp_of retract target_pose solution = elim (approach_start solution) [
    | some start ↦ some (record { positions = start.0; pose_world = start.1 })
    | none ↦
        let iso = transforms.isometries in
        let target_pose_world =
          transforms.compose (solution.frame_transform target_pose.frame_id)
            (pose_to_isometry iso target_pose.pose) in
        let back =
          iso.with_translation iso.identity
            (record { x = nought; y = nought; z = d.sub nought retract }) in
        let pose = transforms.compose target_pose_world back in
        elim (solution.set_from_ik pose) [
          | none ↦ none
          | some positions ↦ some (record { positions = positions; pose_world = pose })
        ]
  ]

  module _ (goal : PlanGraspsGoal W) (arm : JointGroup W) (motion : GripperMotion W) (target : Str)
      (index : ℕ) where
    unfoldable pub grasp_from : ℕ → PoseStamped W → Solution W I → Pregrasp W I → RankedGrasp W
    grasp_from count target_pose solution pregrasp =
        let object_t_pregrasp =
          transforms.compose (transforms.inverse (solution.frame_transform target_pose.frame_id))
            pregrasp.pose_world in
        record {
          candidate_index = index;
          target_id = target;
          grasp = record {
            id = codes "grasp_" ++ decimal count;
            pre_grasp_posture = motion.open_posture;
            grasp_posture = motion.closed_posture;
            grasp_pose = target_pose;
            grasp_quality =
                d.div (d.ratio 1 1) (d.add (d.ratio 1 1) (max_double nought solution.cost));
            pre_grasp_approach = motion.approach;
            post_grasp_retreat = motion.grasp_retreat;
            post_place_retreat = motion.place_retreat;
            max_contact_force = nought;
            allowed_touch_objects = target ∷ [];
          };
          pre_grasp_pose = record {
            frame_id = target_pose.frame_id;
            pose = isometry_to_pose object_t_pregrasp;
          };
          grasp_ik_solution = record {
            name = arm.active_joint_names;
            position = solution.grasp_positions;
          };
          pregrasp_ik_solution = record {
            name = arm.active_joint_names;
            position = pregrasp.positions;
          };
        }

    -- One iteration of the loop: `none` is a solution that is skipped.
    unfoldable pub grasp_of : ℕ → Solution W I → Option (RankedGrasp W)
    grasp_of count solution =
        if solution.is_complete
        then elim solution.target_pose [
          | none ↦ none
          | some target_pose ↦ elim (pregrasp_of (retract_distance goal) target_pose solution) [
            | none ↦ none
            | some pregrasp ↦ some (grasp_from count target_pose solution pregrasp)
          ]
        ]
        else none

    -- The rest of the loop once `count` grasps are found.
    unfoldable pub extend :
        ℕ
        → Option (RankedGrasp W)
        → List (RankedGrasp W)
        → List (RankedGrasp W)
        → List (RankedGrasp W)
    extend count none same more = same
    extend count (some grasp) same more =
        if leb (max_grasps goal.max_num_grasps) (count + 1) then grasp ∷ [] else grasp ∷ more

    unfoldable pub ranked_grasps : ℕ → List (Solution W I) → List (RankedGrasp W)
    ranked_grasps count [] = []
    ranked_grasps count (solution ∷ rest) =
        extend count (grasp_of count solution) (ranked_grasps count rest)
          (ranked_grasps (count + 1) rest)
