-- ===== src/GraspSkill/Execute.antt =====
-- moveit_plan_grasp_skill/src/moveit_plan_grasp_skill/moveit_plan_grasp_skill.cpp:
-- GraspPlanningSkill::Execute, over the action client and the object world.
pub mod Results
pub mod World
pub mod Response
pub mod Laws
pub mod Frames
pub mod Outcome
use intrinsic_moveit.Prelude.{
  ℕ, Str, codes, is_empty, length, get_elem?, ltb, ◌==◌, List, [], ◌∷◌, ◌++◌, Option, none, some,
  Bool, true, false, ◌||◌, ◌&&◌, not, if◌then◌else◌, StatusOr, ok, err, fail, guard, ◌>>=◌, ◌>>◌,
  Status, ok_status, failed, invalid_argument, not_found, internal, Failure,
}
use intrinsic_moveit.Double.{Double}
use intrinsic_moveit.Messages.{
  success, Pose, PoseStamped, JointState, Grasp, RankedGrasp, PlanGraspsResult, MoveItErrorCode,
}
use intrinsic_moveit.GraspSkill.Params.{
  ObjectReference, FrameName, TransformNodeName, TransformNodeReference, GraspPlanningParams,
  PoseBasedGrasp, GraspPlanningResult,
}
use intrinsic_moveit.GraspSkill.Goal.{text_or, create_plan_grasps_goal}
use intrinsic_moveit.GraspSkill.Call.{
  ActionClient, error_code_to_status, call_grasp_planning_action,
}
use Results.{ObjectPlanningResult, planning_results}
use World.{ObjectWorld, update_output_frames}
use Response.{pose_grasps}

module _ {W : Type 0} where
  -- A StatusOr made of a status: made of OK, it is an internal error.
  unfoldable pub status_or_of : Status → StatusOr (List (RankedGrasp W))
  status_or_of ok_status = fail internal (codes "An OK status is not a valid constructor argument")
  status_or_of (failed e) = err e

  unfoldable pub ranked_grasps_of :
      (MoveItErrorCode → Str) → StatusOr (PlanGraspsResult W) → StatusOr (List (RankedGrasp W))
  unfolding status_or_of
  ranked_grasps_of number (err e) = err e
  ranked_grasps_of number (ok result) = elim result.error_code [
    | success ↦
        if is_empty result.ranked_grasps
        then fail not_found (codes "No reachable or collision-free grasp candidates were returned.")
        else ok result.ranked_grasps
    | other ↦ status_or_of (error_code_to_status number other [])
  ]

module _ {W S N : Type 0} (world : ObjectWorld W S N) where
  unfoldable pub respond_after :
      S × StatusOr (Unit {0})
      → GraspPlanningParams W
      → Str
      → List (ObjectPlanningResult W)
      → S × StatusOr (GraspPlanningResult W)
  respond_after (s, err e) params plan_id results = (s, err e)
  respond_after (s, ok u) params plan_id results = (
    s,
    ok (record { grasps = pose_grasps params true results; plan_id = plan_id; success = true }),
  )

  -- `successful_results.front()` is there, since the ranked grasps are not empty.
  unfoldable pub respond :
      S
      → GraspPlanningParams W
      → Str
      → StatusOr (List (ObjectPlanningResult W))
      → S × StatusOr (GraspPlanningResult W)
  unfolding respond_after
  respond s params plan_id (err e) = (s, err e)
  respond s params plan_id (ok []) =
      (s, fail not_found (codes "No reachable or collision-free grasp candidates were returned."))
  respond s params plan_id (ok (selected ∷ rest)) =
      respond_after (update_output_frames world s params selected) params plan_id (selected ∷ rest)

module _ {W : Type 0} ⦃d : Double W⦄ (client : ActionClient W)
    (number : MoveItErrorCode → Str) where
  -- What the action answered, checked against the candidate objects.
  unfoldable pub planned_results : GraspPlanningParams W → StatusOr (List (ObjectPlanningResult W))
  unfolding ranked_grasps_of
  planned_results params =
      let goal = create_plan_grasps_goal params in
      let timeout_ms = d.mul goal.planning_timeout_sec (d.ratio 1000 1) in
      let call =
        call_grasp_planning_action client (codes "grasp_planning/plan_grasps") goal timeout_ms in
      ranked_grasps_of number call.status_or >>= planning_results params.candidate_objects

module _ {W S N : Type 0} ⦃d : Double W⦄ (world : ObjectWorld W S N) (client : ActionClient W)
    (number : MoveItErrorCode → Str) where
  -- `now_ms` is the clock's reading as a text.
  unfoldable pub execute : S → Str → GraspPlanningParams W → S × StatusOr (GraspPlanningResult W)
  unfolding respond planned_results
  execute s now_ms params =
      if is_empty params.candidate_objects
      then (s, fail invalid_argument (codes "candidate_objects must contain at least one object"))
      else respond world s params (text_or params.plan_id (codes "grasp_plan_" ++ now_ms))
          (planned_results client number params)
