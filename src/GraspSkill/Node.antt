-- ===== src/GraspSkill/Node.antt =====
-- The skill of moveit_plan_grasp_skill on the action server of
-- moveit_planning_service/src/moveit_planning_node.cpp: what the two promise together.
use intrinsic_moveit.Prelude.{ℕ, All, Bool, true, ◌≡◌}
use intrinsic_moveit.Double.{Double}
use intrinsic_moveit.PlanningNode.Requests.{
  GoalResponse, reject, accept_and_execute, handle_plan_grasps_goal,
}
use intrinsic_moveit.PlanningNode.Action.{
  Pipeline, Terminal, succeeded, aborted, canceled, execute_plan_grasps_action,
}
use intrinsic_moveit.PlanningNode.Action.Outcome.{AllPlanned, Outcome}
use intrinsic_moveit.GraspSkill.Params.{GraspPlanningParams, GraspPlanningResult}
use intrinsic_moveit.GraspSkill.Goal.{create_plan_grasps_goal}
use intrinsic_moveit.GraspSkill.Goal.Laws.{IsNamed}
use intrinsic_moveit.GraspSkill.Call.{
  ActionClient, ResultCode, result_succeeded, result_canceled, result_aborted, GoalAnswer,
  goal_rejected, goal_handle, arrived,
}
use intrinsic_moveit.GraspSkill.Execute.Laws.{Matches}

-- How rclcpp_action reports the end of a goal and the answer to one.
abbrev code_of : Terminal → ResultCode
code_of succeeded = result_succeeded
code_of aborted = result_aborted
code_of canceled = result_canceled

abbrev answer_of : GoalResponse → GoalAnswer
answer_of reject = goal_rejected
answer_of accept_and_execute = goal_handle

module _ {W : Type 0} ⦃d : Double W⦄ (pipeline : Pipeline W) (canceling : ℕ → Bool)
    (scene_ready : Bool) where
  -- The action of the planning node, seen by a client that waits long enough.
  abbrev pub node_client : ActionClient W
  node_client = record {
    wait_for_action_server = λ timeout. true;
    send_goal = λ goal timeout. answer_of (handle_plan_grasps_goal scene_ready goal);
    get_result = λ goal timeout.
        (let run = execute_plan_grasps_action pipeline canceling goal in
          arrived (code_of run.terminal) run.result);
  }

  pub record IsServed (params : GraspPlanningParams W) (response : GraspPlanningResult W)
      : Type 0 where
    pub ready : scene_ready ≡ true
    pub named : All IsNamed params.candidate_objects
    pub planned :
        AllPlanned pipeline
          (create_plan_grasps_goal params)
          canceling
          0
          (create_plan_grasps_goal params).candidates
    pub ended :
        (execute_plan_grasps_action pipeline canceling (create_plan_grasps_goal params)).terminal
        ≡ succeeded
    pub matches :
        Matches params.candidate_objects
          (execute_plan_grasps_action pipeline canceling
            (create_plan_grasps_goal params)).result.ranked_grasps
          response.grasps
