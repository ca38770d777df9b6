-- ===== src/PlanningNode/Action/Tests.antt =====
-- Runs of the grasp planning action, and its theorems at a goal with two candidates.
use intrinsic_moveit.Prelude.{ℕ, ◌+◌, ◌*◌, ℤ, pos, codes, [], ◌∷◌, Bool, false, ◌==◌, ◌≡◌, refl}
use intrinsic_moveit.Double.{milli_double}
use intrinsic_moveit.Messages.{
  Vector3, Pose, JointState, PoseStamped, GraspCandidate, PlanGraspsGoal, RankedGrasp, success,
  preempted, JointTrajectory, GripperTranslation,
}
use intrinsic_moveit.PlanningNode.Action.{
  Pipeline, max_grasps, plan_grasps_for_candidate, execute_plan_grasps_action,
}
use intrinsic_moveit.PlanningNode.Action.Sort.{sort_by_quality}
use intrinsic_moveit.PlanningNode.Action.Outcome.{Outcome}

abbrev zero_vector : Vector3 ℤ
zero_vector = record { x = pos 0; y = pos 0; z = pos 0 }

abbrev origin : Pose ℤ
origin = record {
  position = zero_vector;
  orientation = record { x = pos 0; y = pos 0; z = pos 0; w = pos 1000 };
}

abbrev joints : JointState ℤ
joints = record { name = codes "elbow_joint" ∷ []; position = pos 0 ∷ [] }

abbrev at_block : PoseStamped ℤ
at_block = record { frame_id = codes "block"; pose = origin }

abbrev posture : JointTrajectory ℤ
posture = record { frame_id = codes "world"; joint_names = []; points = [] }

abbrev translation : GripperTranslation ℤ
translation = record {
  frame_id = codes "hande_tcp";
  direction = zero_vector;
  desired_distance = pos 50;
  min_distance = pos 25;
}

abbrev grasp : ℕ → ℤ → RankedGrasp ℤ
grasp index quality = record {
  candidate_index = index;
  target_id = codes "block";
  grasp = record {
    id = codes "grasp_0";
    pre_grasp_posture = posture;
    grasp_posture = posture;
    grasp_pose = at_block;
    grasp_quality = quality;
    pre_grasp_approach = translation;
    post_grasp_retreat = translation;
    post_place_retreat = translation;
    max_contact_force = pos 0;
    allowed_touch_objects = codes "block" ∷ [];
  };
  pre_grasp_pose = at_block;
  grasp_ik_solution = joints;
  pregrasp_ik_solution = joints;
}

abbrev block : GraspCandidate ℤ
block = record {
  target_id = codes "block";
  obj_dims_in_meters = zero_vector;
  obj_t_obj_center = origin;
}

abbrev goal : PlanGraspsGoal ℤ
goal = record {
  group_name = codes "ur_manipulator";
  end_effector_group = codes "hand";
  tool_frame = [];
  planning_timeout_sec = pos 15000;
  gripper_motion_duration_sec = pos 500;
  retract_dist_m = pos 50;
  surfaces = [];
  num_rotations = pos 4;
  max_num_grasps = pos 2;
  candidates = block ∷ block ∷ [];
}

-- Two grasps for each candidate, better for the later one.
abbrev pipeline : Pipeline ℤ
pipeline _ candidate index = record {
  ranked_grasps = grasp index (pos (400 + 100 * index)) ∷ grasp index (pos (100 * index)) ∷ [];
  error_code = success;
}

abbrev never : ℕ → Bool
never index = false

best_two :
    (execute_plan_grasps_action pipeline never goal).result.ranked_grasps
    ≡ grasp 1 (pos 500) ∷ grasp 0 (pos 400) ∷ []
unfolding execute_plan_grasps_action plan_grasps_for_candidate sort_by_quality max_grasps
best_two = refl

canceled_before_second :
    (execute_plan_grasps_action pipeline (λ i. i == 1) goal).result.error_code ≡ preempted
unfolding execute_plan_grasps_action plan_grasps_for_candidate
canceled_before_second = refl
