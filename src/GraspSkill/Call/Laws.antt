-- ===== src/GraspSkill/Call/Laws.antt =====
-- What a call of the action returns, and the time it gives the server.
use intrinsic_moveit.Prelude.{
  ℤ, pos, ◌-ℤ◌, ◌&&◌, false, leb_ℤ, Str, true, ◌≡◌, ◌↔◌, refl, arith, ok, ok_status, ◌⊎◌, inl, inr,
  Bool-cases,
}
use intrinsic_moveit.Double.{Double, is_pos, milli_double}
use intrinsic_moveit.Messages.{PlanGraspsGoal, PlanGraspsResult, MoveItErrorCode, success}
use intrinsic_moveit.GraspSkill.Call.{
  error_code_to_status, ResultCode, result_unknown, result_canceled, result_aborted,
  result_succeeded, goal_timeout, goal_rejected, goal_handle, result_timeout, arrived, ActionClient,
  await_goal, call_grasp_planning_action, action_timeout, connection_timeout, result_timeout_ms,
  GoalAnswer, ResultAnswer,
}

-- The status made of a MoveIt error code is OK exactly for SUCCESS.
pub error_code_to_status-ok :
    (number : MoveItErrorCode → Str) (code : MoveItErrorCode) (target_id : Str)
    → (error_code_to_status number code target_id ≡ ok_status) ↔ (code ≡ success)
unfolding error_code_to_status
error_code_to_status-ok number success target_id = (λ h. refl, λ h. refl)
error_code_to_status-ok number _ target_id = (λ h. ground arith, λ h. ground arith)

-- The codes with which a result is handed on.
abbrev pub HasResult : ResultCode → Type 0
HasResult code = (code ≡ result_succeeded) ⊎ (code ≡ result_aborted)

module _ {W : Type 0} where
  await_goal-ok :
      (name : Str) (g : GoalAnswer) (a : ResultAnswer W) (r : PlanGraspsResult W)
      → ((await_goal name g a).status_or ≡ ok r)
        ↔ ((g ≡ goal_handle) × ((code : ResultCode) × (a ≡ arrived code r) × HasResult code))
  unfolding await_goal
  await_goal-ok name goal_timeout a r = (λ h. absurd (cc), λ h. ground arith)
  await_goal-ok name goal_rejected a r = (λ h. absurd (cc), λ h. ground arith)
  await_goal-ok name goal_handle result_timeout r = (λ h. absurd (cc), λ h. absurd (cc (h.1.1)))
  await_goal-ok name goal_handle (arrived result_unknown q) r =
      (λ h. absurd (cc), λ h. ground arith)
  await_goal-ok name goal_handle (arrived result_canceled q) r =
      (λ h. absurd (cc), λ h. ground arith)
  await_goal-ok name goal_handle (arrived result_succeeded q) r =
      (λ h. (refl, (result_succeeded, ground arith, inl refl)), λ h. ground arith)
  await_goal-ok name goal_handle (arrived result_aborted q) r =
      (λ h. (refl, (result_aborted, ground arith, inr refl)), λ h. ground arith)

module _ {W : Type 0} ⦃d : Double W⦄ (client : ActionClient W) (name : Str)
    (goal : PlanGraspsGoal W) (timeout_ms : W) where
  -- The call returns a result exactly when the server is up in time, it takes the goal in time, and
  -- the result arrives in time from a goal that succeeded or aborted.
  pub call_grasp_planning_action-ok :
      (r : PlanGraspsResult W)
      → ((call_grasp_planning_action client name goal timeout_ms).status_or ≡ ok r) ↔ (
          (client.wait_for_action_server (connection_timeout timeout_ms) ≡ true)
          × (client.send_goal goal (connection_timeout timeout_ms) ≡ goal_handle)
          × ((code : ResultCode) × (client.get_result goal (result_timeout_ms timeout_ms)
                ≡ arrived code r)
              × HasResult code))
  unfolding call_grasp_planning_action
  call_grasp_planning_action-ok r = (
    λ h. elim (Bool-cases (client.wait_for_action_server (connection_timeout timeout_ms))) [
      | inl e ↦ (let q = (await_goal-ok name _ _ r).0 (ground arith) in (e, q.0, q.1))
      | inr e ↦ ground arith
    ],
    λ h. rw h.0 ((await_goal-ok name _ _ r).1 (h.1, h.2)),
  )

-- A number of milliseconds above zero and up to five minutes.
abbrev pub IsBounded : {W : Type 0} ⦃d : Double W⦄ → W → Type 0
IsBounded ⦃d⦄ x = (d.is_finite x ≡ true) × (is_pos x ≡ true) × (d.lt (d.ratio 300000 1) x ≡ false)

-- What the bounds rest on: five minutes and the default are such numbers, and such a number is cast,
-- rounded up, to at most as many milliseconds as five minutes have.
pub record IsCast (W : Type 0) ⦃d : Double W⦄ : Type 0 where
  pub five_minutes : IsBounded (d.ratio 300000 1)
  pub default : IsBounded (d.ratio 15000 1)
  pub at_most : (x : W) → IsBounded x → leb_ℤ (d.to_int (d.ceil x)) (pos 300000) ≡ true

pub milli-IsCast : IsCast ℤ
milli-IsCast = record {
  five_minutes = (refl, refl, refl);
  default = (refl, refl, refl);
  at_most = λ x h. ground (arith, h.2);
}

module _ {W : Type 0} ⦃d : Double W⦄ (law : IsCast W) (timeout_ms : W) where
  action_timeout-ge : leb_ℤ (pos 1) (action_timeout timeout_ms) ≡ true
  unfolding action_timeout
  action_timeout-ge = ground arith

  action_timeout-le : leb_ℤ (action_timeout timeout_ms) (pos 300000) ≡ true
  unfolding action_timeout
  action_timeout-le = elim (Bool-cases (d.is_finite timeout_ms && is_pos timeout_ms)) [
    | inr e ↦ (let k = law.at_most (d.ratio 15000 1) law.default in rw e (ground arith))
    | inl e ↦ elim (Bool-cases (d.lt (d.ratio 300000 1) timeout_ms)) [
      | inl f ↦
          (let k = law.at_most (d.ratio 300000 1) law.five_minutes in rw (e, f) (ground arith))
      | inr f ↦
          (let k = law.at_most timeout_ms (ground arith, ground arith, f) in
            rw (e, f) (ground arith))
    ]
  ]

  -- If a number of up to five minutes is cast to at most that many milliseconds, then the action gets
  -- between one millisecond and five minutes; connecting and handing over the goal may each take the
  -- lesser of that time and five seconds; and the result is awaited for exactly five seconds longer
  -- than the action's time, so for at most five minutes and five seconds.
  pub timeouts-bounds :
      (leb_ℤ (pos 1) (action_timeout timeout_ms) ≡ true)
      × (leb_ℤ (action_timeout timeout_ms) (pos 300000) ≡ true)
      × (leb_ℤ (pos 1) (connection_timeout timeout_ms) ≡ true)
      × (leb_ℤ (connection_timeout timeout_ms) (pos 5000) ≡ true)
      × (leb_ℤ (connection_timeout timeout_ms) (action_timeout timeout_ms) ≡ true)
      × ((connection_timeout timeout_ms ≡ pos 5000)
          ⊎ (connection_timeout timeout_ms ≡ action_timeout timeout_ms))
      × (result_timeout_ms timeout_ms -ℤ action_timeout timeout_ms ≡ pos 5000)
      × (leb_ℤ (result_timeout_ms timeout_ms) (pos 305000) ≡ true)
  unfolding connection_timeout result_timeout_ms
  timeouts-bounds =
      let low = action_timeout-ge in
      let high = action_timeout-le in
      (
        low,
        high,
        ground arith,
        ground arith,
        ground arith,
        ground arith,
        ground arith,
        ground arith,
      )
