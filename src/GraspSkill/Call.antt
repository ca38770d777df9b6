-- ===== src/GraspSkill/Call.antt =====
-- moveit_plan_grasp_skill/src/moveit_plan_grasp_skill/moveit_plan_grasp_skill.cpp:
-- MoveItErrorCodeToStatus, and CallGraspPlanningAction over an action client that answers within
-- the time it is given.
pub mod Laws
use intrinsic_moveit.Prelude.{
  ℤ, pos, ltb_ℤ, ◌+ℤ◌, Str, codes, is_empty, List, [], ◌∷◌, ◌++◌, Bool, true, false, ◌&&◌,
  if◌then◌else◌, StatusOr, ok, err, fail, Status, ok_status, failed, Code, invalid_argument,
  not_found, failed_precondition, deadline_exceeded, unavailable, internal, cancelled,
}
use intrinsic_moveit.Double.{Double, is_pos, min_double}
use intrinsic_moveit.Messages.{
  PlanGraspsGoal, PlanGraspsResult, MoveItErrorCode, success, planning_failed, timed_out,
  invalid_object_name, invalid_group_name, invalid_robot_state, start_state_in_collision,
  goal_in_collision, no_ik_solution,
}

abbrev status_error : Code → Str → Status
status_error c m = failed (record { code = c; message = m })

-- `number` is the decimal text of a code.
unfoldable pub error_code_to_status : (MoveItErrorCode → Str) → MoveItErrorCode → Str → Status
error_code_to_status number code target_id =
    let target_msg =
      if is_empty target_id then [] else codes " for object '" ++ target_id ++ codes "'" in
    elim code [
      | success ↦ ok_status
      | invalid_object_name ↦ status_error not_found (
          if is_empty target_id
          then codes "Target object was not found in the planning scene."
          else codes "Target object '"
            ++ target_id
            ++ codes "' was not found in the planning scene.")
      | invalid_group_name ↦
          status_error invalid_argument
            (codes "Invalid planning group or end-effector group specified in request.")
      | invalid_robot_state ↦
          status_error failed_precondition
            (codes "Robot model does not define the required end-effector or IK frame.")
      | timed_out ↦
          status_error deadline_exceeded
            (codes "Grasp planning timed out" ++ target_msg ++ codes ".")
      | planning_failed ↦
          status_error not_found (
            codes "No reachable or collision-free grasp candidates found"
            ++ target_msg
            ++ codes ".")
      | start_state_in_collision ↦
          status_error failed_precondition (codes "Robot start state is in collision.")
      | goal_in_collision ↦
          status_error failed_precondition
            (codes "Grasp goal pose is in collision" ++ target_msg ++ codes ".")
      | no_ik_solution ↦
          status_error not_found
            (codes "No IK solution found for grasp pose" ++ target_msg ++ codes ".")
      | other ↦ status_error internal (
          codes "Grasp planning failed with MoveIt error code: "
          ++ number other
          ++ target_msg
          ++ codes ".")
    ]

-- rclcpp_action::ResultCode
pub data ResultCode : Type 0 where
  result_unknown result_succeeded result_canceled result_aborted : ResultCode

pub data GoalAnswer : Type 0 where
  goal_timeout goal_rejected goal_handle : GoalAnswer

pub data ResultAnswer (W : Type 0) : Type 0 where
  result_timeout : ResultAnswer W
  arrived : ResultCode → PlanGraspsResult W → ResultAnswer W

-- The client's calls, with what they answer within so many milliseconds.
pub record ActionClient (W : Type 0) : Type 0 where
  pub wait_for_action_server : ℤ → Bool
  pub send_goal : PlanGraspsGoal W → ℤ → GoalAnswer
  pub get_result : PlanGraspsGoal W → ℤ → ResultAnswer W

-- What the call returns, and whether it canceled the goal.
pub record CallOutcome (W : Type 0) : Type 0 where
  pub status_or : StatusOr (PlanGraspsResult W)
  pub cancels : Bool

module _ {W : Type 0} where
  returned : StatusOr (PlanGraspsResult W) → CallOutcome W
  returned r = record { status_or = r; cancels = false }

  wrapped_result : ResultCode → PlanGraspsResult W → StatusOr (PlanGraspsResult W)
  wrapped_result result_canceled r = fail cancelled (codes "Grasp planning action was canceled.")
  wrapped_result result_unknown r =
      fail internal (codes "Grasp planning action returned an unknown result.")
  wrapped_result result_succeeded r = ok r
  wrapped_result result_aborted r = ok r

  await_result : Str → ResultAnswer W → CallOutcome W
  unfolding returned wrapped_result
  await_result action_name result_timeout = record {
    status_or =
        fail deadline_exceeded (codes "Timed out waiting for action result: " ++ action_name);
    cancels = true;
  }
  await_result action_name (arrived code r) = returned (wrapped_result code r)

  await_goal : Str → GoalAnswer → ResultAnswer W → CallOutcome W
  unfolding returned await_result
  await_goal action_name goal_timeout r =
      returned (fail deadline_exceeded (codes "Timed out sending goal to action: " ++ action_name))
  await_goal action_name goal_rejected r =
      returned
        (fail failed_precondition (codes "Grasp planning goal was rejected by: " ++ action_name))
  await_goal action_name goal_handle r = await_result action_name r

abbrev pub max_ℤ : ℤ → ℤ → ℤ
max_ℤ a b = if ltb_ℤ a b then b else a

abbrev pub min_ℤ : ℤ → ℤ → ℤ
min_ℤ a b = if ltb_ℤ b a then b else a

module _ {W : Type 0} ⦃d : Double W⦄ where
  -- The timeout of an action in milliseconds: at least one, at most five minutes.
  unfoldable pub action_timeout : W → ℤ
  action_timeout timeout_ms =
      let bounded_timeout_ms =
        if d.is_finite timeout_ms && is_pos timeout_ms
        then min_double timeout_ms (d.ratio 300000 1)
        else d.ratio 15000 1 in
      max_ℤ (pos 1) (d.to_int (d.ceil bounded_timeout_ms))

  unfoldable pub connection_timeout : W → ℤ
  connection_timeout timeout_ms = min_ℤ (action_timeout timeout_ms) (pos 5000)

  unfoldable pub result_timeout_ms : W → ℤ
  result_timeout_ms timeout_ms = action_timeout timeout_ms +ℤ pos 5000

  unfoldable pub call_grasp_planning_action :
      ActionClient W → Str → PlanGraspsGoal W → W → CallOutcome W
  unfolding returned await_goal
  call_grasp_planning_action client action_name goal timeout_ms =
      if client.wait_for_action_server (connection_timeout timeout_ms)
      then await_goal action_name (client.send_goal goal (connection_timeout timeout_ms))
          (client.get_result goal (result_timeout_ms timeout_ms))
      else returned (fail unavailable (codes "Action server not reachable: " ++ action_name))
