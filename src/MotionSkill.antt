-- ===== src/MotionSkill.antt =====
-- moveit_plan_motion_skill/src/moveit_plan_motion_skill/moveit_plan_motion_skill.cpp: the skill that
-- asks the planning node for a motion, CallGetMotionPlan and MotionPlanningSkill::Execute.
pub mod Laws
mod Tests
use intrinsic_moveit.Prelude.{
  ℤ, Str, codes, is_empty, List, [], ◌++◌, map, Option, none, some, Bool, true, false, not,
  if◌then◌else◌, StatusOr, ok, err, fail, guard, ◌>>=◌, ◌>>◌, invalid_argument, deadline_exceeded,
  unavailable,
}
use intrinsic_moveit.Double.{Double, nought}
use intrinsic_moveit.Messages.{MoveItErrorCode, success}
use intrinsic_moveit.PlanningNode.Requests.{TrajectoryPoint, MotionPlanResponse}

abbrev pub map_some : {A B : Type 0} → (A → B) → Option A → Option B
map_some f none = none
map_some f (some x) = some (f x)

pub record MotionPlanningParams (W : Type 0) : Type 0 where
  pub group_name : Str
  pub timeout_ms : W

-- intrinsic_proto.icon.JointStatePVA
pub record JointStatePva (W : Type 0) : Type 0 where
  pub position : List W
  pub velocity : List W
  pub acceleration : List W

pub record MotionPlanningResult (W : Type 0) : Type 0 where
  pub success : Bool
  pub planning_time : W
  pub geometric_trajectory : List (List W)
  pub parameterized_trajectory : List (JointStatePva W)

pub data ServiceAnswer (W : Type 0) : Type 0 where
  answer_timeout : ServiceAnswer W
  answered : MotionPlanResponse W → ServiceAnswer W

-- The service's client: whether it is up, and what it answers for a group, within a timeout.
pub record ServiceClient (W : Type 0) : Type 0 where
  pub wait_for_service : ℤ → Bool
  pub send_request : Str → ℤ → ServiceAnswer W

is_success : MoveItErrorCode → Bool
is_success code = elim code [ success ↦ true | _ ↦ false ]

module _ {W : Type 0} where
  await_response : Str → ServiceAnswer W → StatusOr (MotionPlanResponse W)
  await_response service_name answer_timeout =
      fail deadline_exceeded (codes "Timed out waiting for service response: " ++ service_name)
  await_response service_name (answered response) = ok response

  state_of : TrajectoryPoint W → JointStatePva W
  state_of point = record {
    position = point.positions;
    velocity = point.velocities;
    acceleration = point.accelerations;
  }

  unfoldable pub result_of : MotionPlanResponse W → MotionPlanningResult W
  unfolding is_success state_of
  result_of response =
      let points = if is_success response.error_code then response.points else [] in
      record {
        success = is_success response.error_code;
        planning_time = response.planning_time;
        geometric_trajectory = map (λ (p : TrajectoryPoint W). p.positions) points;
        parameterized_trajectory = map state_of points;
      }

module _ {W : Type 0} where
  -- The call with its timeout in milliseconds.
  unfoldable pub await_service : ServiceClient W → Str → Str → ℤ → StatusOr (MotionPlanResponse W)
  unfolding await_response
  await_service client service_name group_name timeout = do
    guard (client.wait_for_service timeout) unavailable
        (codes "Service not reachable: " ++ service_name)
    await_response service_name (client.send_request group_name timeout)

  unfoldable pub answer_of : StatusOr (MotionPlanResponse W) → StatusOr (MotionPlanningResult W)
  answer_of call_res = do response ← call_res; ok (result_of response)

-- `none` is undefined behaviour: the timeout does not fit the integer that it is cast to.
module _ {W : Type 0} ⦃d : Double W⦄ where
  unfoldable pub call_get_motion_plan :
      ServiceClient W → Str → Str → W → Option (StatusOr (MotionPlanResponse W))
  call_get_motion_plan client service_name group_name timeout_ms =
      map_some (await_service client service_name group_name) (d.to_int32 timeout_ms)

  unfoldable pub execute :
      ServiceClient W → MotionPlanningParams W → Option (StatusOr (MotionPlanningResult W))
  execute client params =
      if is_empty params.group_name
      then some (fail invalid_argument (codes "group_name must not be empty."))
      else if d.le params.timeout_ms nought
      then some (fail invalid_argument (codes "timeout_ms must be greater than zero."))
      else map_some answer_of (
          call_get_motion_plan client (codes "motion_planning/get_motion_plan") params.group_name
            params.timeout_ms)
