-- ===== src/GraspSkill/Execute/Laws.antt =====
-- What a response of the skill promises, and what happens to the object world.
use intrinsic_moveit.Prelude.{
  refl, length, get_elem?, List, [], ◌∷◌, some, false, ◌≡◌, ◌≢◌, ◌↔◌, arith, ok, Option-cases,
  StatusOr-cases, inl, inr, inl, inr, All, Bool,
}
use intrinsic_moveit.Messages.{JointState, Grasp, RankedGrasp}
use intrinsic_moveit.GraspSkill.Params.{ObjectReference, PoseBasedGrasp, GraspPlanningParams}
use intrinsic_moveit.GraspSkill.Execute.Results.{
  ObjectPlanningResult, ik_invalid, planning_result, planning_results,
}
use intrinsic_moveit.GraspSkill.Execute.Response.{
  object_name, pose_grasp, pose_grasps, named_object,
}

module _ {W : Type 0} where
  -- An arm solution has joints, each with a name.
  pub record IsSolution (solution : JointState W) : Type 0 where
    pub has_joints : solution.position ≢ []
    pub same_length : length solution.name ≡ length solution.position

  ik_invalid-IsSolution :
      (solution : JointState W) → (ik_invalid solution ≡ false) ↔ IsSolution solution
  unfolding ik_invalid
  ik_invalid-IsSolution solution = (
    λ h. record { has_joints = ground arith; same_length = ground arith },
    λ h. ground (arith, h.has_joints, h.same_length),
  )

  module _ (objects : List ObjectReference) where
    -- The ranked grasp is for one of the objects and has a solution for both of its poses.
    pub record IsComplete (ranked : RankedGrasp W) : Type 0 where
      pub object : ObjectReference
      pub object_at : get_elem? objects ranked.candidate_index ≡ some object
      pub grasp_solution : IsSolution ranked.grasp_ik_solution
      pub pregrasp_solution : IsSolution ranked.pregrasp_ik_solution

    -- The grasp of the response says what the ranked grasp says.
    pub record IsGraspOf (ranked : RankedGrasp W) (grasp : PoseBasedGrasp W) : Type 0 where
      pub complete : IsComplete ranked
      pub same_id : grasp.grasp_id ≡ ranked.grasp.id
      pub same_object : object_name complete.object ≢ [] → grasp.object ≡ complete.object
      pub same_grasp_joints : grasp.grasp_ik_solution ≡ ranked.grasp_ik_solution.position
      pub same_pregrasp_joints : grasp.pregrasp_ik_solution ≡ ranked.pregrasp_ik_solution.position

    -- The grasps of a response stand for the ranked grasps, one by one and in order.
    abbrev pub Matches : List (RankedGrasp W) → List (PoseBasedGrasp W) → Type 0
    Matches [] [] = Unit
    Matches [] (g ∷ gs) = ⊥
    Matches (r ∷ rs) [] = ⊥
    Matches (r ∷ rs) (g ∷ gs) = IsGraspOf r g × Matches rs gs

    planning_result-IsComplete :
        (ranked : RankedGrasp W) (result : ObjectPlanningResult W)
        → planning_result (get_elem? objects ranked.candidate_index) ranked ≡ ok result
        → IsComplete ranked
    unfolding planning_result
    planning_result-IsComplete ranked result h =
        elim (Option-cases (get_elem? objects ranked.candidate_index)) [
          | inl e ↦ ground arith
          | inr (object, e) ↦ record {
            object = object;
            object_at = e;
            grasp_solution = (ik_invalid-IsSolution _).0 (ground arith);
            pregrasp_solution = (ik_invalid-IsSolution _).0 (ground arith);
          }
        ]

    abbrev pub result_of : ObjectReference → RankedGrasp W → ObjectPlanningResult W
    result_of object ranked = record {
      candidate_object = object;
      grasp = ranked.grasp;
      pre_grasp_pose = ranked.pre_grasp_pose;
      grasp_ik_solution = ranked.grasp_ik_solution;
      pregrasp_ik_solution = ranked.pregrasp_ik_solution;
    }

    planning_result-ok :
        (ranked : RankedGrasp W) (c : IsComplete ranked)
        → planning_result (get_elem? objects ranked.candidate_index) ranked
          ≡ ok (result_of c.object ranked)
    unfolding planning_result
    planning_result-ok ranked c =
        let g = (ik_invalid-IsSolution ranked.grasp_ik_solution).1 c.grasp_solution in
        let p = (ik_invalid-IsSolution ranked.pregrasp_ik_solution).1 c.pregrasp_solution in
        rw (c.object_at, g, p) refl

    named_object-named :
        (object : ObjectReference) (grasp : Grasp W)
        → object_name object ≢ []
        → named_object object grasp ≡ object
    unfolding named_object
    named_object-named object grasp h = ground arith

    pose_grasp-IsGraspOf :
        (params : GraspPlanningParams W) (first : Bool) (ranked : RankedGrasp W)
        (c : IsComplete ranked)
        → IsGraspOf ranked (pose_grasp params first (result_of c.object ranked))
    unfolding pose_grasp
    pose_grasp-IsGraspOf params first ranked c = record {
      complete = c;
      same_id = refl;
      same_object = named_object-named c.object ranked.grasp;
      same_grasp_joints = refl;
      same_pregrasp_joints = refl;
    }

    pub record Cons (r : RankedGrasp W) (rs : List (RankedGrasp W))
        (results : List (ObjectPlanningResult W)) : Type 0 where
      pub complete : IsComplete r
      pub rest : List (ObjectPlanningResult W)
      pub rest_ok : planning_results objects rs ≡ ok rest
      pub whole : results ≡ result_of complete.object r ∷ rest

    pub planning_results-Cons :
        (r : RankedGrasp W) (rs : List (RankedGrasp W)) (results : List (ObjectPlanningResult W))
        → planning_results objects (r ∷ rs) ≡ ok results
        → Cons r rs results
    unfolding planning_results
    planning_results-Cons r rs results h =
        elim (StatusOr-cases (planning_result (get_elem? objects r.candidate_index) r)) [
          | inl (result, e) ↦ elim (StatusOr-cases (planning_results objects rs)) [
            | inl (rest, k) ↦
                let c = planning_result-IsComplete r result e in
                record {
                  complete = c;
                  rest = rest;
                  rest_ok = k;
                  whole = ground (arith, planning_result-ok r c);
                }
            | inr (f, k) ↦ ground arith
          ]
          | inr (f, e) ↦ ground arith
        ]

    pub planning_results-Matches :
        (params : GraspPlanningParams W) (first : Bool) (ranked : List (RankedGrasp W))
        (results : List (ObjectPlanningResult W))
        → planning_results objects ranked ≡ ok results
        → Matches ranked (pose_grasps params first results)
    unfolding planning_results pose_grasps
    planning_results-Matches params first [] results h =
        let e : results ≡ [] = ground arith in rw e tt
    planning_results-Matches params first (r ∷ rs) results h =
        let c = planning_results-Cons r rs results h in
        rw c.whole (
          pose_grasp-IsGraspOf params first r c.complete,
          planning_results-Matches params false rs c.rest c.rest_ok,
        )

    pub planning_results-ok :
        (ranked : List (RankedGrasp W))
        → ((results : List (ObjectPlanningResult W)) × (planning_results objects ranked
              ≡ ok results))
          ↔ All IsComplete ranked
    unfolding planning_results
    planning_results-ok [] = (λ h. tt, λ h. ([], refl))
    planning_results-ok (r ∷ rs) = (
      λ (results, h).
          (let c = planning_results-Cons r rs results h in
            (c.complete, (planning_results-ok rs).0 (c.rest, c.rest_ok))),
      λ h.
          (let (results, e) = (planning_results-ok rs).1 h.1 in
            (result_of h.0.object r ∷ results, rw (planning_result-ok r h.0, e) refl)),
    )
