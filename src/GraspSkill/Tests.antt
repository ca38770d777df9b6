-- ===== src/GraspSkill/Tests.antt =====
-- The skill at concrete parameters: one block, grasped once, with an output frame.
use intrinsic_moveit.Prelude.{
  ℕ, ◌+◌, ℤ, pos, Str, codes, [], ◌∷◌, All, Option, none, some, Bool, true, false, ◌≡◌, ◌≢◌, ◌↔◌,
  refl, arith, ok, ok_status, leb_ℤ, ◌⊎◌, ◌-ℤ◌,
}
use intrinsic_moveit.Double.{milli_double}
use intrinsic_moveit.Messages.{
  Vector3, PoseStamped, JointState, RankedGrasp, PlanGraspsResult, MoveItErrorCode, success,
  JointTrajectory, GripperTranslation,
}
use intrinsic_moveit.PlanningNode.Requests.{handle_plan_grasps_goal, accept_and_execute}
use intrinsic_moveit.PlanningNode.Action.{Pipeline}
use intrinsic_moveit.GraspSkill.Params.{
  ObjectReference, TransformNodeReference, GraspPlanningParams, GraspPlanningResult,
}
use intrinsic_moveit.GraspSkill.Goal.{create_plan_grasps_goal}
use intrinsic_moveit.GraspSkill.Goal.Laws.{
  DefaultsPositive, IsUsable, IsNamed, create_plan_grasps_goal-IsUsable,
  create_plan_grasps_goal-accepted,
}
use intrinsic_moveit.GraspSkill.Call.{
  ActionClient, ResultCode, ResultAnswer, call_grasp_planning_action, goal_handle, arrived,
  result_succeeded, connection_timeout, action_timeout, result_timeout_ms,
}
use intrinsic_moveit.GraspSkill.Call.Laws.{
  HasResult, call_grasp_planning_action-ok, timeouts-bounds, milli-IsCast,
}
use intrinsic_moveit.GraspSkill.Execute.{
  execute, respond, respond_after, planned_results, ranked_grasps_of,
}
use intrinsic_moveit.GraspSkill.Execute.Results.{planning_results, planning_result, ik_invalid}
use intrinsic_moveit.GraspSkill.Execute.Response.{
  pose_grasps, pose_grasp, target_name, object_name, named_object,
}
use intrinsic_moveit.GraspSkill.Execute.World.{
  ObjectWorld, update_output_frames, update_frames_of, then_pregrasp, update_output_frame,
  move_frame, updated, is_set,
}
use intrinsic_moveit.GraspSkill.Execute.Outcome.{
  IsAnswered, execute-IsAnswered, execute-responds, call_for,
}

abbrev zero_vector : Vector3 ℤ
zero_vector = record { x = pos 0; y = pos 0; z = pos 0 }

abbrev at_block : PoseStamped ℤ
at_block = record {
  frame_id = codes "block";
  pose = record {
    position = zero_vector;
    orientation = record { x = pos 0; y = pos 0; z = pos 0; w = pos 1000 };
  };
}

abbrev joints : JointState ℤ
joints = record { name = codes "elbow_joint" ∷ []; position = pos 250 ∷ [] }

abbrev posture : JointTrajectory ℤ
posture = record { frame_id = codes "world"; joint_names = []; points = [] }

abbrev translation : GripperTranslation ℤ
translation = record {
  frame_id = codes "hande_tcp";
  direction = zero_vector;
  desired_distance = pos 50;
  min_distance = pos 25;
}

abbrev ranked : RankedGrasp ℤ
ranked = record {
  candidate_index = 0;
  target_id = codes "block";
  grasp = record {
    id = codes "grasp_0";
    pre_grasp_posture = posture;
    grasp_posture = posture;
    grasp_pose = at_block;
    grasp_quality = pos 900;
    pre_grasp_approach = translation;
    post_grasp_retreat = translation;
    post_place_retreat = translation;
    max_contact_force = pos 0;
    allowed_touch_objects = codes "block" ∷ [];
  };
  pre_grasp_pose = at_block;
  grasp_ik_solution = joints;
  pregrasp_ik_solution = joints;
}

abbrev planned : PlanGraspsResult ℤ
planned = record { ranked_grasps = ranked ∷ []; error_code = success }

abbrev client : ActionClient ℤ
client = record {
  wait_for_action_server = λ timeout. true;
  send_goal = λ goal timeout. goal_handle;
  get_result = λ goal timeout. arrived result_succeeded planned;
}

-- The state counts the moves; every node is the node 0.
abbrev world : ObjectWorld ℤ ℕ ℕ
world = record {
  get_object = λ s object. ok 0;
  get_transform_node = λ s node. ok 0;
  update_transform = λ s a b node pose. (s + 1, ok_status);
}

abbrev block : ObjectReference
block = record { id = []; by_name = some (codes "block") }

abbrev grasp_frame : TransformNodeReference
grasp_frame = record { id = codes "frame_1"; by_name = none }

abbrev params_with : Option TransformNodeReference → GraspPlanningParams ℤ
params_with output = record {
  candidate_objects = block ∷ [];
  tool_frame = none;
  box_grasp_annotations = none;
  output_grasp_frame = output;
  output_pregrasp_frame = none;
  retract_dist_m = none;
  group_name = some [];
  timeout_ms = some (pos 2000000);
  end_effector_group = none;
  plan_id = some (codes "plan_7");
  max_num_grasps = some (pos 0);
  gripper_motion_duration_sec = none;
}

abbrev params : GraspPlanningParams ℤ
params = params_with (some grasp_frame)

abbrev number : MoveItErrorCode → Str
number code = codes "1"

abbrev block_frame : TransformNodeReference
block_frame = record {
  id = [];
  by_name = some (record { frame = none; object = some (codes "block") });
}

abbrev pregrasp_frame : TransformNodeReference
pregrasp_frame = record {
  id = [];
  by_name = some (record {
    frame = some (record { object_name = codes "block"; frame_name = codes "grasp_0_pregrasp" });
    object = none;
  });
}

abbrev response : GraspPlanningResult ℤ
response = record {
  grasps =
      record {
        grasp_id = codes "grasp_0";
        object = block;
        object_frame = some block_frame;
        grasp_frame = some grasp_frame;
        pre_grasp_frame = some pregrasp_frame;
        pregrasp_ik_solution = pos 250 ∷ [];
        grasp_ik_solution = pos 250 ∷ [];
      }
      ∷ [];
  plan_id = codes "plan_7";
  success = true;
}

responds : execute world client number 0 [] params ≡ (1, ok response)
unfolding execute respond respond_after planned_results ranked_grasps_of create_plan_grasps_goal
    call_grasp_planning_action planning_results planning_result ik_invalid update_output_frames
    update_frames_of then_pregrasp update_output_frame move_frame updated is_set pose_grasps
    pose_grasp target_name object_name named_object codes
responds = refl

execute-IsAnswered_example : IsAnswered world client number 0 1 params response
execute-IsAnswered_example = execute-IsAnswered world client number 0 1 [] params response responds

abbrev plain : GraspPlanningParams ℤ
plain = params_with none

called : call_for client number plain ≡ ok planned
unfolding call_grasp_planning_action
called = refl

some_block : (block ∷ []) ≢ []
some_block = λ e. ground arith

execute-responds_example :
    (answer : GraspPlanningResult ℤ) × (execute world client number 0 [] plain ≡ (0, ok answer))
execute-responds_example =
    execute-responds world client number 0 [] plain planned some_block refl refl called
      (record { succeeds = refl; some_grasp = ground arith })
      (
        record {
          object = block;
          object_at = refl;
          grasp_solution = record { has_joints = ground arith; same_length = refl };
          pregrasp_solution = record { has_joints = ground arith; same_length = refl };
        },
        tt,
      )

defaults : DefaultsPositive ℤ
defaults = record {
  timeout_pos = refl;
  timeout_finite = refl;
  motion_pos = refl;
  retract_pos = refl;
}

create_plan_grasps_goal-IsUsable_example : IsUsable (create_plan_grasps_goal params)
create_plan_grasps_goal-IsUsable_example = create_plan_grasps_goal-IsUsable defaults params

create_plan_grasps_goal-accepted_example :
    (handle_plan_grasps_goal true (create_plan_grasps_goal params) ≡ accept_and_execute)
    ↔ ((true ≡ true) × (params.candidate_objects ≢ []) × All IsNamed params.candidate_objects)
create_plan_grasps_goal-accepted_example = create_plan_grasps_goal-accepted true params

call_grasp_planning_action-ok_example :
    ((call_grasp_planning_action client [] (create_plan_grasps_goal params) (pos 2000000)).status_or
      ≡ ok planned)
    ↔ ((true ≡ true)
        × (goal_handle ≡ goal_handle)
        × ((code : ResultCode) × (ResultAnswer.arrived result_succeeded planned
              ≡ arrived code planned)
            × HasResult code))
call_grasp_planning_action-ok_example =
    call_grasp_planning_action-ok client [] (create_plan_grasps_goal params) (pos 2000000) planned

-- 33 minutes and 20 seconds are asked for: the action gets 300 s, and 5 s of them to connect.
timeouts-bounds_example :
    (leb_ℤ (pos 1) (action_timeout (pos 2000000000)) ≡ true)
    × (leb_ℤ (action_timeout (pos 2000000000)) (pos 300000) ≡ true)
    × (leb_ℤ (pos 1) (connection_timeout (pos 2000000000)) ≡ true)
    × (leb_ℤ (connection_timeout (pos 2000000000)) (pos 5000) ≡ true)
    × (leb_ℤ (connection_timeout (pos 2000000000)) (action_timeout (pos 2000000000)) ≡ true)
    × ((connection_timeout (pos 2000000000) ≡ pos 5000)
        ⊎ (connection_timeout (pos 2000000000) ≡ action_timeout (pos 2000000000)))
    × (result_timeout_ms (pos 2000000000) -ℤ action_timeout (pos 2000000000) ≡ pos 5000)
    × (leb_ℤ (result_timeout_ms (pos 2000000000)) (pos 305000) ≡ true)
timeouts-bounds_example = timeouts-bounds milli-IsCast (pos 2000000000)

-- A pipeline that gives the block's grasp for each candidate.
abbrev pipeline : Pipeline ℤ
pipeline goal candidate index = planned

abbrev never : ℕ → Bool
never index = false
