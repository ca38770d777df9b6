-- ===== src/GraspPlanning/Pipeline/Tests.antt =====
-- The pipeline with a planner that gives one solution for a block.
use intrinsic_moveit.GraspPlanning.Pipeline.Ids.{Numbered, plan_grasps-Numbered}
use intrinsic_moveit.GraspPlanning.Pipeline.ModelCache.{
  Loaded, load_threw, loaded, new_pipeline, get_robot_model, after_calls, get_robot_model-first,
}
use intrinsic_moveit.GraspPlanning.Pipeline.Gripper.{
  gripper_motion, gripper_positions, joint_positions,
}
use intrinsic_moveit.GraspPlanning.Pipeline.SubSolution.{
  SolutionBase, sub_trajectory, solution_sequence, wrapped_solution, no_solutions, next_solution,
  find_in, find_sub_solution, first_by, nodes, find_sub_solution-first,
}
use intrinsic_moveit.GraspPlanning.Pipeline.SubSolution.{
  SolutionBase, solution_sequence, next_solution, sub_trajectory,
}
use intrinsic_moveit.Prelude.{
  zero, suc, lookup, str_eq, ℕ, ℤ, pos, codes, [], ◌∷◌, none, some, Bool, false, true, ◌≡◌, ◌≢◌,
  refl, arith, suc,
}
use intrinsic_moveit.Double.{milli_double}
use intrinsic_moveit.Messages.{
  Vector3, Quaternion, PoseStamped, GraspCandidate, PlanGraspsGoal, success, planning_failed,
}
use intrinsic_moveit.PlanningNode.Action.{execute_plan_grasps_action, max_grasps}
use intrinsic_moveit.GraspPlanning.Pipeline.Task.{
  JointGroup, Solution, Planner, planned, valid_surfaces, all_if_empty, surfaces_to_use,
}
use intrinsic_moveit.GraspPlanning.Pipeline.Ranking.{
  approach_start, Transforms, ranked_grasps, extend, grasp_of, pregrasp_of, grasp_from,
  approach_stage,
}
use intrinsic_moveit.GraspPlanning.Pipeline.{
  gripper_of, plan_grasps, attempt, result_of, object_box, setup_of, solutions_of,
  gripper_positions, Option, List, Str,
}
use intrinsic_moveit.GraspPlanning.ObjectGeometry.{ObjectBoundingBox}
use intrinsic_moveit.GraspPlanning.Pipeline.Laws.{
  IsPlanned, plan_grasps-IsPlanned, plan_grasps-ne-planning_failed,
}

abbrev zero_vector : Vector3 ℤ
zero_vector = record { x = pos 0; y = pos 0; z = pos 0 }

abbrev upright : Quaternion ℤ
upright = record { x = pos 0; y = pos 0; z = pos 0; w = pos 1000 }

-- Isometries without any content.
abbrev transforms : Transforms ℤ (Vector3 ℤ)
transforms = record {
  isometries = record {
    identity = zero_vector;
    with_translation = λ i v. v;
    with_rotation = λ i q. i;
    squared_norm = λ q. pos 1000;
    apply = λ i v. v;
    infinity = pos 1000000;
    minus_infinity = pos 0;
  };
  compose = λ i j. i;
  inverse = λ i. i;
  translation = λ i. i;
  rotation = λ i. upright;
}

abbrev at_block : PoseStamped ℤ
at_block = record {
  frame_id = codes "block";
  pose = record { position = zero_vector; orientation = upright };
}

-- The approach, the second step of the whole, has no scene at its start.
abbrev whole : SolutionBase (Option (List ℤ × Vector3 ℤ))
whole = solution_sequence 9 none (
    next_solution (sub_trajectory 0 none)
      (next_solution (wrapped_solution 5 none (sub_trajectory 3 none)) no_solutions))

abbrev solution : Solution ℤ (Vector3 ℤ)
solution = record {
  is_complete = true;
  target_pose = some at_block;
  grasp_positions = pos 250 ∷ [];
  sub_solutions = whole;
  set_from_ik = λ pose. some (pos 200 ∷ []);
  frame_transform = λ frame. zero_vector;
  cost = pos 1000;
}

abbrev group : JointGroup ℤ
group = record {
  active_joint_names = codes "joint" ∷ [];
  collision_links = codes "finger" ∷ [];
  named_positions = λ name. some ((codes "joint", pos 10) ∷ []);
}

abbrev planner : Planner ℤ (Vector3 ℤ)
planner = record {
  robot_model = some (record {
    model_frame = codes "world";
    has_end_effector = λ name. true;
    has_link = λ name. true;
    joint_group = λ name. some group;
  });
  plan = λ setup. planned success (solution ∷ solution ∷ []);
}

abbrev block : GraspCandidate ℤ
block = record {
  target_id = codes "block";
  obj_dims_in_meters = record { x = pos 40; y = pos 40; z = pos 40 };
  obj_t_obj_center = record { position = zero_vector; orientation = upright };
}

abbrev goal : PlanGraspsGoal ℤ
goal = record {
  group_name = codes "ur_manipulator";
  end_effector_group = [];
  tool_frame = [];
  planning_timeout_sec = pos 15000;
  gripper_motion_duration_sec = pos 500;
  retract_dist_m = pos 50;
  surfaces = [];
  num_rotations = pos 4;
  max_num_grasps = pos 1;
  candidates = block ∷ [];
}

succeeds : (plan_grasps transforms planner none (pos 1000) goal block 0).error_code ≡ success
unfolding plan_grasps attempt result_of object_box setup_of solutions_of gripper_of
    gripper_positions joint_positions gripper_motion approach_start find_sub_solution find_in
    ranked_grasps extend grasp_of pregrasp_of grasp_from max_grasps codes lookup str_eq
succeeds = refl

plan_grasps-IsPlanned_example :
    IsPlanned transforms planner none
      (pos 1000)
      goal
      block
      0
      (plan_grasps transforms planner none (pos 1000) goal block 0).ranked_grasps
plan_grasps-IsPlanned_example =
    plan_grasps-IsPlanned transforms planner none (pos 1000) goal block 0 succeeds

abbrev never : ℕ → Bool
never index = false

some_candidate : goal.candidates ≢ []
some_candidate = λ e. ground arith

plan_grasps-ne-planning_failed_example :
    (execute_plan_grasps_action
      (plan_grasps transforms planner none (pos 1000))
      never
      goal).result.error_code
    ≢ planning_failed
plan_grasps-ne-planning_failed_example =
    plan_grasps-ne-planning_failed transforms planner none (pos 1000) never goal some_candidate

abbrev odd_goal : PlanGraspsGoal ℤ
odd_goal = record {
  group_name = codes "ur_manipulator";
  end_effector_group = [];
  tool_frame = [];
  planning_timeout_sec = pos 15000;
  gripper_motion_duration_sec = pos 500;
  retract_dist_m = pos 50;
  surfaces = pos 9 ∷ pos 2 ∷ [];
  num_rotations = pos 0;
  max_num_grasps = pos 0;
  candidates = block ∷ [];
}

abbrev block_box : ObjectBoundingBox ℤ (Vector3 ℤ)
block_box = record { dimensions = block.obj_dims_in_meters; center_transform = zero_vector }

one_surface : (setup_of odd_goal (codes "block") block_box).surfaces ≡ 2 ∷ []
unfolding setup_of surfaces_to_use valid_surfaces all_if_empty
one_surface = refl

plan_grasps-Numbered_example :
    Numbered 0 (plan_grasps transforms planner none (pos 1000) goal block 0).ranked_grasps
plan_grasps-Numbered_example = plan_grasps-Numbered transforms planner none (pos 1000) goal block 0

-- The approach is found inside the wrapped solution, behind the stage 0.
finds_approach : find_sub_solution (some whole) (some approach_stage) ≡ some (sub_trajectory 3 none)
unfolding find_sub_solution find_in
finds_approach = refl

find_sub_solution-first_example :
    find_sub_solution (some whole) (some approach_stage) ≡ first_by approach_stage (nodes whole)
find_sub_solution-first_example = find_sub_solution-first whole approach_stage

-- The first load throws, the second gives nothing, and the later ones give a model.
abbrev flaky_loader : ℕ → Loaded Str
flaky_loader zero = load_threw
flaky_loader (suc zero) = loaded none
flaky_loader (suc (suc n)) = loaded (some (codes "ur5e"))

get_robot_model-first_example :
    (get_robot_model flaky_loader
      (after_calls flaky_loader 2 (new_pipeline flaky_loader true none true))).0
    ≡ some (codes "ur5e")
unfolding new_pipeline get_robot_model
get_robot_model-first_example = get_robot_model-first flaky_loader none true 2
