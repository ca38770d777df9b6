-- ===== src/PlanningNode/Requests/Tests.antt =====
-- The acceptance of goals at a concrete goal.
use intrinsic_moveit.Prelude.{ℤ, pos, codes, [], ◌∷◌, true, ◌≡◌, ◌≢◌, ◌↔◌}
use intrinsic_moveit.Messages.{PlanGraspsGoal, GraspCandidate, Vector3, Pose}
use intrinsic_moveit.PlanningNode.Requests.{handle_plan_grasps_goal, accept_and_execute}
use intrinsic_moveit.PlanningNode.Requests.Laws.{AllNamed, goal-accepted}

abbrev zero_vector : Vector3 ℤ
zero_vector = record { x = pos 0; y = pos 0; z = pos 0 }

abbrev origin : Pose ℤ
origin = record {
  position = zero_vector;
  orientation = record { x = pos 0; y = pos 0; z = pos 0; w = pos 1000 };
}

abbrev block : GraspCandidate ℤ
block = record {
  target_id = codes "block";
  obj_dims_in_meters = zero_vector;
  obj_t_obj_center = origin;
}

abbrev pub goal : PlanGraspsGoal ℤ
goal = record {
  group_name = codes "ur_manipulator";
  end_effector_group = codes "hand";
  tool_frame = [];
  planning_timeout_sec = pos 15000;
  gripper_motion_duration_sec = pos 500;
  retract_dist_m = pos 50;
  surfaces = [];
  num_rotations = pos 4;
  max_num_grasps = pos 2;
  candidates = block ∷ block ∷ [];
}

goal-accepted_example :
    (handle_plan_grasps_goal true goal ≡ accept_and_execute)
    ↔ ((true ≡ true) × (goal.candidates ≢ []) × AllNamed goal.candidates)
goal-accepted_example = goal-accepted true goal
