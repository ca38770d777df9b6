-- ===== src/PlanningNode/Requests.antt =====
-- moveit_planning_service/src/moveit_planning_node.cpp: handle_plan_grasps_goal,
-- handle_plan_grasps_cancel and handle_motion_plan_request, which answer at once.
pub mod Laws
mod Tests
use intrinsic_moveit.Prelude.{Str, is_empty, List, [], ◌∷◌, Option, none, some, Bool, if◌then◌else◌}
use intrinsic_moveit.Double.{Double}
use intrinsic_moveit.Messages.{PlanGraspsGoal, GraspCandidate, MoveItErrorCode, success, failure}

pub data GoalResponse : Type 0 where
  reject accept_and_execute : GoalResponse

pub data CancelResponse : Type 0 where
  cancel_accept : CancelResponse

-- The loop that rejects a goal with an unnamed candidate.
check_candidates : {W : Type 0} → List (GraspCandidate W) → GoalResponse
check_candidates [] = accept_and_execute
check_candidates (candidate ∷ rest) =
    if is_empty candidate.target_id then reject else check_candidates rest

unfoldable pub handle_plan_grasps_goal : {W : Type 0} → Bool → PlanGraspsGoal W → GoalResponse
unfolding check_candidates
handle_plan_grasps_goal scene_ready goal =
    if scene_ready
    then (if is_empty goal.candidates then reject else check_candidates goal.candidates)
    else reject

unfoldable pub handle_plan_grasps_cancel : CancelResponse
handle_plan_grasps_cancel = cancel_accept

-- trajectory_msgs/JointTrajectoryPoint
pub record TrajectoryPoint (W : Type 0) : Type 0 where
  pub positions : List W
  pub velocities : List W
  pub accelerations : List W

pub record MotionPlanResponse (W : Type 0) : Type 0 where
  pub group_name : Str
  pub planning_time : W
  pub points : List (TrajectoryPoint W)
  pub error_code : MoveItErrorCode

-- `response` is as the service made it, before the handler writes to it.
unfoldable pub handle_motion_plan_request :
    {W : Type 0} ⦃d : Double W⦄ → Bool → Str → MotionPlanResponse W → MotionPlanResponse W
handle_motion_plan_request ⦃d⦄ scene_ready group_name response =
    if scene_ready
    then record response {
      group_name = group_name;
      planning_time = d.ratio 5 100;
      error_code = success;
    }
    else record response { error_code = failure }
