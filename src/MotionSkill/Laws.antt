-- ===== src/MotionSkill/Laws.antt =====
-- When the motion skill answers, and what it answers with the planning node behind it.
use intrinsic_moveit.Prelude.{
  ℤ, pos, [], map, none, some, Option-cases, Bool, true, false, Bool-cases, ◌≡◌, ◌≢◌, ◌↔◌, refl,
  sym, subst, ◌∙◌, arith, inl, inr, ok, ◌⊎◌, leb_ℤ,
}
use intrinsic_moveit.Double.{Double, nought}
use intrinsic_moveit.Messages.{MoveItErrorCode, success, other_code}
use intrinsic_moveit.PlanningNode.Requests.{
  TrajectoryPoint, MotionPlanResponse, handle_motion_plan_request,
}
use intrinsic_moveit.MotionSkill.{
  MotionPlanningParams, MotionPlanningResult, ServiceAnswer, answer_timeout, answered,
  ServiceClient, is_success, state_of, result_of, await_service, await_response, answer_of,
  call_get_motion_plan, execute, List,
}

is_success_iff : (code : MoveItErrorCode) → (is_success code ≡ true) ↔ (code ≡ success)
unfolding is_success
is_success_iff success = (λ h. refl, λ h. refl)
is_success_iff _ = (λ h. absurd (cc), λ h. absurd (cc))

same_success : (a b : Bool) → (a ≡ true → b ≡ true) → (b ≡ true → a ≡ true) → a ≡ b
same_success true b f g = sym (f refl)
same_success false true f g = g refl
same_success false false f g = refl

module _ {W : Type 0} where
  -- With SUCCESS the points of the trajectory, once with the positions alone and once with the
  -- velocities and accelerations; with any other code no trajectory.
  abbrev pub Carries : MoveItErrorCode → List (TrajectoryPoint W) → MotionPlanningResult W → Type 0
  Carries success points result =
      (result.geometric_trajectory ≡ map (λ (p : TrajectoryPoint W). p.positions) points)
      × (result.parameterized_trajectory
          ≡ map
              (λ (p : TrajectoryPoint W). record {
                position = p.positions;
                velocity = p.velocities;
                acceleration = p.accelerations;
              })
              points)
  Carries _ points result =
      (result.geometric_trajectory ≡ []) × (result.parameterized_trajectory ≡ [])

  Carries-unique :
      (code : MoveItErrorCode) (points : List (TrajectoryPoint W)) (a b : MotionPlanningResult W)
      → Carries code points a
      → Carries code points b
      → (a.geometric_trajectory ≡ b.geometric_trajectory)
        × (a.parameterized_trajectory ≡ b.parameterized_trajectory)
  Carries-unique success points a b p q = (p.0 ∙ sym q.0, p.1 ∙ sym q.1)
  Carries-unique _ points a b p q = (p.0 ∙ sym q.0, p.1 ∙ sym q.1)

  result_of-Carries :
      (code : MoveItErrorCode) (response : MotionPlanResponse W)
      → Carries code response.points (result_of (record response { error_code = code }))
  unfolding result_of state_of is_success
  result_of-Carries success response = (refl, refl)
  result_of-Carries _ response = (refl, refl)

  -- The result that is made of a response: its planning time, whether its code is SUCCESS, and only
  -- then its trajectory.
  pub record IsResult (response : MotionPlanResponse W) (result : MotionPlanningResult W)
      : Type 0 where
    pub successful : (result.success ≡ true) ↔ (response.error_code ≡ success)
    pub same_time : result.planning_time ≡ response.planning_time
    pub carries : Carries response.error_code response.points result

  result_of-IsResult : (response : MotionPlanResponse W) → IsResult response (result_of response)
  unfolding result_of state_of
  result_of-IsResult response = record {
    successful = is_success_iff response.error_code;
    same_time = refl;
    carries = result_of-Carries response.error_code response;
  }

  result-ext :
      (a b : MotionPlanningResult W)
      → a.success ≡ b.success
      → a.planning_time ≡ b.planning_time
      → a.geometric_trajectory ≡ b.geometric_trajectory
      → a.parameterized_trajectory ≡ b.parameterized_trajectory
      → a ≡ b
  result-ext a b p q r s = λ i. record {
    success = p i;
    planning_time = q i;
    geometric_trajectory = r i;
    parameterized_trajectory = s i;
  }

  IsResult-unique :
      (response : MotionPlanResponse W) (a b : MotionPlanningResult W)
      → IsResult response a
      → IsResult response b
      → a ≡ b
  IsResult-unique response a b p q =
      let same = Carries-unique response.error_code response.points a b p.carries q.carries in
      result-ext a b
        (same_success a.success b.success (λ e. q.successful.1 (p.successful.0 e))
          (λ e. p.successful.1 (q.successful.0 e)))
        (p.same_time ∙ sym q.same_time) same.0 same.1

  answer_cases :
      (a : ServiceAnswer W)
      → (a ≡ answer_timeout) ⊎ ((response : MotionPlanResponse W) × (a ≡ answered response))
  answer_cases answer_timeout = inl refl
  answer_cases (answered response) = inr (response, refl)

module _ {W : Type 0} ⦃d : Double W⦄ (client : ServiceClient W)
    (params : MotionPlanningParams W) where
  -- The response that the skill gets in time for valid parameters.
  pub record Gets (response : MotionPlanResponse W) : Type 0 where
    pub timeout : ℤ
    pub some_group : params.group_name ≢ []
    pub some_time : d.le params.timeout_ms nought ≡ false
    pub cast : d.to_int32 params.timeout_ms ≡ some timeout
    pub up : client.wait_for_service timeout ≡ true
    pub came : client.send_request params.group_name timeout ≡ answered response

  -- The skill returns a result exactly when the group has a name, the timeout is not zero or less and
  -- fits a 32-bit integer of milliseconds, and the service is up and answers within these; the
  -- result has then what the response has, a trajectory only if the response's code is SUCCESS.
  pub execute-ok :
      (result : MotionPlanningResult W)
      → (execute client params ≡ some (ok result))
        ↔ ((response : MotionPlanResponse W) × Gets response × IsResult response result)
  unfolding execute call_get_motion_plan await_service await_response answer_of
  execute-ok result = (
    λ h. elim (Option-cases (d.to_int32 params.timeout_ms)) [
      | inl c ↦ ground arith
      | inr (timeout, c) ↦ elim (answer_cases (client.send_request params.group_name timeout)) [
        | inl e ↦ ground arith
        | inr (response, e) ↦ (
          response,
          record {
            timeout = timeout;
            some_group = ground arith;
            some_time = ground arith;
            cast = c;
            up = ground arith;
            came = e;
          },
          (let same : result_of response ≡ result = ground arith in
              subst (IsResult response) same (result_of-IsResult response)),
        )
      ]
    ],
    λ (response, g, e).
        let same =
          IsResult-unique response (result_of response) result (result_of-IsResult response) e in
        ground (arith, g.some_group, g.some_time, g.cast, g.up, g.came, same),
  )

  -- For a group with a name, the skill's behaviour is undefined exactly when the timeout is not zero
  -- or less and does not fit the integer: the check lets NaN and more than 2147483647 ms pass.
  pub execute-undefined :
      params.group_name ≢ []
      → (execute client params ≡ none)
        ↔ ((d.le params.timeout_ms nought ≡ false) × (d.to_int32 params.timeout_ms ≡ none))
  unfolding execute call_get_motion_plan
  execute-undefined g = (
    λ h. elim (Option-cases (d.to_int32 params.timeout_ms)) [
      | inl c ↦ (ground arith, c)
      | inr (timeout, c) ↦ ground arith
    ],
    λ (t, c). ground arith,
  )

-- The planning node as the service, for a client that waits: `found` milliseconds until it is
-- discovered, `needed` until it has answered. `made` is the response as ROS makes it, with nothing
-- set.
module _ {W : Type 0} ⦃d : Double W⦄ where
  abbrev pub made : MotionPlanResponse W
  made = record {
    group_name = [];
    planning_time = nought;
    points = [];
    error_code = other_code (pos 0);
  }

  abbrev pub in_time : Bool → MotionPlanResponse W → ServiceAnswer W
  in_time true response = answered response
  in_time false response = answer_timeout

  abbrev pub node_service : ℤ → ℤ → Bool → ServiceClient W
  node_service found needed scene_ready = record {
    wait_for_service = λ timeout. leb_ℤ found timeout;
    send_request = λ group_name timeout.
        in_time (leb_ℤ needed timeout) (handle_motion_plan_request scene_ready group_name made);
  }

  -- Served by the planning node, the skill answers every group with a name within every timeout that
  -- is not zero or less, fits the integer, and is long enough to find the node and to get its
  -- answer: with success exactly when the scene is ready, and never with a trajectory.
  pub execute-untraveled :
      (found needed : ℤ) (scene_ready : Bool) (params : MotionPlanningParams W) (timeout : ℤ)
      → params.group_name ≢ []
      → d.le params.timeout_ms nought ≡ false
      → d.to_int32 params.timeout_ms ≡ some timeout
      → leb_ℤ found timeout ≡ true
      → leb_ℤ needed timeout ≡ true
      → (result : MotionPlanningResult W) × (execute (node_service found needed scene_ready) params
          ≡ some (ok result))
        × (result.success ≡ scene_ready)
        × (result.geometric_trajectory ≡ [])
        × (result.parameterized_trajectory ≡ [])
  unfolding handle_motion_plan_request result_of is_success
  execute-untraveled found needed scene_ready params timeout g t c f n =
      let response = handle_motion_plan_request scene_ready params.group_name made in
      let e = (execute-ok (node_service found needed scene_ready) params (result_of response)).1 (
        response,
        record {
          timeout = timeout;
          some_group = g;
          some_time = t;
          cast = c;
          up = f;
          came = rw n refl;
        },
        result_of-IsResult response,
      ) in
      elim (Bool-cases scene_ready) [
        | inl k ↦ (result_of response, e, rw k refl, rw k refl, rw k refl)
        | inr k ↦ (result_of response, e, rw k refl, rw k refl, rw k refl)
      ]
