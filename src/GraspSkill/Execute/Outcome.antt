-- ===== src/GraspSkill/Execute/Outcome.antt =====
-- What a response of the skill promises, and when there is one.
use intrinsic_moveit.Prelude.{
  Str, codes, ◌++◌, is_empty, get_elem?, List, [], ◌∷◌, All, none, some, true, ◌≡◌, ◌≢◌, refl, sym,
  ap, arith, StatusOr, ok, err, Status, ok_status, failed, inl, inr, StatusOr-cases, Bool-cases,
}
use intrinsic_moveit.Double.{Double}
use intrinsic_moveit.Messages.{RankedGrasp, PlanGraspsResult, MoveItErrorCode, success}
use intrinsic_moveit.GraspSkill.Params.{GraspPlanningParams, GraspPlanningResult, ObjectReference}
use intrinsic_moveit.GraspSkill.Goal.{text_or, create_plan_grasps_goal}
use intrinsic_moveit.GraspSkill.Call.{ActionClient, call_grasp_planning_action}
use intrinsic_moveit.GraspSkill.Execute.Results.{ObjectPlanningResult, planning_results}
use intrinsic_moveit.GraspSkill.Execute.World.{ObjectWorld, is_set, update_output_frames}
use intrinsic_moveit.GraspSkill.Execute.Response.{pose_grasps}
use intrinsic_moveit.GraspSkill.Execute.Frames.{WorldUpdated, update_output_frames-WorldUpdated}
use intrinsic_moveit.GraspSkill.Execute.Laws.{
  IsComplete, Matches, result_of, planning_results-Matches, planning_results-ok,
  planning_results-Cons,
}
use intrinsic_moveit.GraspSkill.Execute.{
  status_or_of, ranked_grasps_of, planned_results, respond_after, respond, execute,
}

module _ {W : Type 0} where
  -- A result of the action that the skill goes on with.
  pub record IsFruitful (result : PlanGraspsResult W) : Type 0 where
    pub succeeds : result.error_code ≡ success
    pub some_grasp : result.ranked_grasps ≢ []

  status_or_of-ne-ok : (t : Status) (ranked : List (RankedGrasp W)) → status_or_of t ≢ ok ranked
  unfolding status_or_of
  status_or_of-ne-ok ok_status ranked = λ h. ground arith
  status_or_of-ne-ok (failed e) ranked = λ h. ground arith

  fruitful_of :
      (number : MoveItErrorCode → Str) (c : MoveItErrorCode) (grasps ranked : List (RankedGrasp W))
      → ranked_grasps_of number (ok (record { ranked_grasps = grasps; error_code = c })) ≡ ok ranked
      → (c ≡ success) × (grasps ≢ []) × (ranked ≡ grasps)
  unfolding ranked_grasps_of
  fruitful_of number success grasps ranked h = (refl, ground arith, ground arith)
  fruitful_of number _ grasps ranked h = absurd (status_or_of-ne-ok _ ranked h)

module _ {W : Type 0} ⦃d : Double W⦄ (client : ActionClient W)
    (number : MoveItErrorCode → Str) where
  -- What the action answers for the parameters.
  abbrev pub call_for : GraspPlanningParams W → StatusOr (PlanGraspsResult W)
  call_for params =
      let goal = create_plan_grasps_goal params in
      (call_grasp_planning_action client (codes "grasp_planning/plan_grasps") goal
        (d.mul goal.planning_timeout_sec (d.ratio 1000 1))).status_or

  record Planned (params : GraspPlanningParams W) (results : List (ObjectPlanningResult W))
      : Type 0 where
    result : PlanGraspsResult W
    called : call_for params ≡ ok result
    fruitful : IsFruitful result
    checked : planning_results params.candidate_objects result.ranked_grasps ≡ ok results

  planned_results-Planned :
      (params : GraspPlanningParams W) (results : List (ObjectPlanningResult W))
      → planned_results client number params ≡ ok results
      → Planned params results
  unfolding planned_results
  planned_results-Planned params results h = elim (StatusOr-cases (call_for params)) [
    | inl (result, e) ↦ elim (StatusOr-cases (ranked_grasps_of number (ok result))) [
      | inl (ranked, k) ↦
          let (succeeds, some_grasp, same) =
            fruitful_of number result.error_code result.ranked_grasps ranked k in
          record {
            result = result;
            called = e;
            fruitful = record { succeeds = succeeds; some_grasp = some_grasp };
            checked = rw (← same) (rw (e, k) at h);
          }
      | inr (f, k) ↦ absurd (cc (rw (e, k) at h))
    ]
    | inr (f, e) ↦ absurd (cc (rw e at h))
  ]

  planned_results-of :
      (params : GraspPlanningParams W) (result : PlanGraspsResult W)
      (results : List (ObjectPlanningResult W))
      → call_for params ≡ ok result
      → IsFruitful result
      → planning_results params.candidate_objects result.ranked_grasps ≡ ok results
      → planned_results client number params ≡ ok results
  unfolding planned_results ranked_grasps_of
  planned_results-of params result results called fruitful checked =
      rw (called, fruitful.succeeds) (ground (arith, fruitful.some_grasp, checked))

record Top {W : Type 0} (objects : List ObjectReference) (ranked : List (RankedGrasp W))
    (x : ObjectPlanningResult W) : Type 0 where
  top : RankedGrasp W
  first : get_elem? ranked 0 ≡ some top
  complete : IsComplete objects top
  selected : x ≡ result_of objects complete.object top

Top-of :
    {W : Type 0} (objects : List ObjectReference) (ranked : List (RankedGrasp W))
    (x : ObjectPlanningResult W) (xs : List (ObjectPlanningResult W))
    → planning_results objects ranked ≡ ok (x ∷ xs)
    → Top objects ranked x
unfolding planning_results
Top-of objects [] x xs h = absurd (cc)
Top-of objects (r ∷ rs) x xs h =
    let c = planning_results-Cons objects r rs (x ∷ xs) h in
    record { top = r; first = refl; complete = c.complete; selected = ground (arith, c.whole) }

results-ne-nil :
    {W : Type 0} (objects : List ObjectReference) (ranked : List (RankedGrasp W))
    (results : List (ObjectPlanningResult W))
    → ranked ≢ []
    → planning_results objects ranked ≡ ok results
    → results ≢ []
results-ne-nil objects [] results n h = absurd (n refl)
results-ne-nil objects (r ∷ rs) results n h =
    let c = planning_results-Cons objects r rs results h in λ e. ground (arith, c.whole)

module _ {W S N : Type 0} ⦃d : Double W⦄ (world : ObjectWorld W S N) (client : ActionClient W)
    (number : MoveItErrorCode → Str) where
  -- The response `response` of the skill, which left the world in `s'`.
  pub record IsAnswered (s s' : S) (params : GraspPlanningParams W)
      (response : GraspPlanningResult W) : Type 0 where
    pub result : PlanGraspsResult W
    pub called : call_for client number params ≡ ok result
    pub fruitful : IsFruitful result
    pub matches : Matches params.candidate_objects result.ranked_grasps response.grasps
    pub top : RankedGrasp W
    pub top_first : get_elem? result.ranked_grasps 0 ≡ some top
    pub top_complete : IsComplete params.candidate_objects top
    pub world_updated :
        WorldUpdated world s s' params (result_of params.candidate_objects top_complete.object top)

  respond_after-ok :
      (u : S × StatusOr (Unit {0})) (params : GraspPlanningParams W) (plan_id : Str)
      (results : List (ObjectPlanningResult W)) (s' : S) (response : GraspPlanningResult W)
      → respond_after world u params plan_id results ≡ (s', ok response)
      → (u ≡ (s', ok tt)) × (response.grasps ≡ pose_grasps params true results)
  unfolding respond_after
  respond_after-ok (s, err e) params plan_id results s' response h = ground arith
  respond_after-ok (s, ok u) params plan_id results s' response h =
      let e : record { grasps = pose_grasps params true results; plan_id = plan_id; success = true }
          ≡ response =
        ground arith in
      (ground arith, ap (λ r. r.grasps) (sym e))

  IsAnswered-of :
      (s s' : S) (params : GraspPlanningParams W) (plan_id : Str) (response : GraspPlanningResult W)
      (results : List (ObjectPlanningResult W))
      → planned_results client number params ≡ ok results
      → respond world s params plan_id (ok results) ≡ (s', ok response)
      → IsAnswered s s' params response
  unfolding respond
  IsAnswered-of s s' params plan_id response [] e h = absurd (cc)
  IsAnswered-of s s' params plan_id response (x ∷ xs) e h =
      let p = planned_results-Planned client number params (x ∷ xs) e in
      let t = Top-of params.candidate_objects p.result.ranked_grasps x xs p.checked in
      let (moved, same) = respond_after-ok _ params plan_id (x ∷ xs) s' response h in
      record {
        result = p.result;
        called = p.called;
        fruitful = p.fruitful;
        matches = rw same (
            planning_results-Matches params.candidate_objects params true p.result.ranked_grasps
              (x ∷ xs) p.checked);
        top = t.top;
        top_first = t.first;
        top_complete = t.complete;
        world_updated =
            rw (← t.selected) (update_output_frames-WorldUpdated world s s' params x moved);
      }

  -- If the skill responds, then the action returned SUCCESS with grasps, every one of them is for a
  -- candidate object and has a joint solution for its grasp and its pre-grasp pose, the grasps of the
  -- response are these, one by one and in order, and the output frames that are asked for were put
  -- at the first grasp's poses relative to its object, with nothing else done to the world.
  pub execute-IsAnswered :
      (s s' : S) (now_ms : Str) (params : GraspPlanningParams W) (response : GraspPlanningResult W)
      → execute world client number s now_ms params ≡ (s', ok response)
      → IsAnswered s s' params response
  unfolding execute respond
  execute-IsAnswered s s' now_ms params response h =
      elim (Bool-cases (is_empty params.candidate_objects)) [
        | inl e ↦ absurd (cc (rw e at h))
        | inr e ↦ elim (StatusOr-cases (planned_results client number params)) [
          | inl (results, k) ↦ IsAnswered-of s s' params _ response results k (rw (e, k) at h)
          | inr (f, k) ↦ absurd (cc (rw (e, k) at h))
        ]
      ]

  respond_plain :
      (s : S) (params : GraspPlanningParams W) (plan_id : Str)
      (results : List (ObjectPlanningResult W))
      → results ≢ []
      → params.output_grasp_frame ≡ none
      → params.output_pregrasp_frame ≡ none
      → (response : GraspPlanningResult W) × (respond world s params plan_id (ok results)
          ≡ (s, ok response))
  unfolding respond update_output_frames is_set respond_after
  respond_plain s params plan_id [] n g p = absurd (n refl)
  respond_plain s params plan_id (x ∷ xs) n g p = (
    record { grasps = pose_grasps params true (x ∷ xs); plan_id = plan_id; success = true },
    rw (g, p) refl,
  )

  -- With a candidate object, no output frame, and an action that returns SUCCESS with grasps, all
  -- of them for a candidate object and with joint solutions for both poses, the skill responds and
  -- leaves the world as it is.
  pub execute-responds :
      (s : S) (now_ms : Str) (params : GraspPlanningParams W) (result : PlanGraspsResult W)
      → params.candidate_objects ≢ []
      → params.output_grasp_frame ≡ none
      → params.output_pregrasp_frame ≡ none
      → call_for client number params ≡ ok result
      → IsFruitful result
      → All (IsComplete params.candidate_objects) result.ranked_grasps
      → (response : GraspPlanningResult W) × (execute world client number s now_ms params
          ≡ (s, ok response))
  unfolding execute
  execute-responds s now_ms params result some_object g p called fruitful complete =
      let (results, e) =
        (planning_results-ok params.candidate_objects result.ranked_grasps).1 complete in
      let k = planned_results-of client number params result results called fruitful e in
      let n =
        results-ne-nil params.candidate_objects result.ranked_grasps results fruitful.some_grasp
          e in
      let (response, r) =
        respond_plain s params (text_or params.plan_id (codes "grasp_plan_" ++ now_ms)) results n g
          p in
      (response, ground (arith, some_object, k, r))
