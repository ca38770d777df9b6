-- ===== src/PlanningNode/Action/Best.antt =====
-- What a successful grasp planning action returns, and when planning cannot fail for lack of grasps.
use mathlib.Core.List.{Perm, append-nil}
use intrinsic_moveit.Prelude.{
  false, ℕ, ◌≤◌, List, [], ◌∷◌, ◌++◌, Bool, length, All, ◌≡◌, ◌≢◌, refl, sym, ◌∙◌, arith, subst,
}
use intrinsic_moveit.Double.{Double}
use intrinsic_moveit.Messages.{
  success, GraspCandidate, PlanGraspsGoal, RankedGrasp, planning_failed,
}
use intrinsic_moveit.PlanningNode.Action.{
  Pipeline, u32, plan_grasps_for_candidate, ActionRun, execute_plan_grasps_action,
}
use intrinsic_moveit.PlanningNode.Action.Sort.{better, IsDescending}
use intrinsic_moveit.PlanningNode.Action.Outcome.{
  all_grasps, AllPlanned, Outcome, Ending, was_canceled, candidate_failed, nothing_found, found,
  execute-Outcome,
}

module _ {W : Type 0} ⦃d : Double W⦄ where
  -- `kept` is the best of `all`, `limit` long if anything is dropped and no longer
  -- than that otherwise, the best grasp first.
  pub record IsBest (limit : ℕ) (all kept : List (RankedGrasp W)) : Type 0 where
    pub dropped : List (RankedGrasp W)
    pub whole : Perm (kept ++ dropped) all
    pub bounded : length kept ≤ limit
    pub filled : dropped ≢ [] → length kept ≡ limit
    pub descending : IsDescending kept
    pub no_better : All (λ g. All (λ h. better h g ≡ false) dropped) kept

  module _ (pipeline : Pipeline W) (canceling : ℕ → Bool) (goal : PlanGraspsGoal W) where
    pub all_before :
        (run : ActionRun W) (o : Outcome pipeline goal canceling run)
        → o.rest ≡ []
        → o.before ≡ goal.candidates
    all_before run o e =
        sym (append-nil o.before) ∙ subst (λ r. o.before ++ r ≡ goal.candidates) e o.split

    -- A successful planning of one candidate gives a grasp.
    abbrev pub GivesGrasps : Type 0
    GivesGrasps =
        (c : GraspCandidate W) (index : ℕ)
        → (pipeline goal c index).error_code ≡ success
        → (pipeline goal c index).ranked_grasps ≢ []

    planned_grasps :
        GivesGrasps
        → (cs : List (GraspCandidate W)) → AllPlanned pipeline goal canceling 0 cs
        → all_grasps pipeline goal 0 cs ≡ []
        → cs ≡ []
    unfolding plan_grasps_for_candidate
    planned_grasps gives [] p e = refl
    planned_grasps gives (c ∷ cs) p e = absurd (ground (arith, gives c (u32 0)))

    failed_without_grasps :
        GivesGrasps
        → goal.candidates ≢ []
        → (run : ActionRun W) → Outcome pipeline goal canceling run
        → run.result.error_code ≢ planning_failed
    failed_without_grasps gives some_candidate run o h = go o.ending
      where
        go : Ending pipeline goal canceling run o.before o.rest → ⊥
        go (was_canceled _ t r) = ground arith
        go (candidate_failed _ t r) = ground arith
        go (found _ _ t r) = ground arith
        go (nothing_found e none_found t r) =
            some_candidate
              (sym (all_before run o e) ∙ planned_grasps gives o.before o.planned none_found)

    -- If each successful planning of a candidate gives a grasp, an action on a goal with a candidate
    -- never ends with "planning failed": it is canceled, fails at a candidate, or succeeds.
    pub execute-ne-planning_failed :
        GivesGrasps
        → goal.candidates ≢ []
        → (execute_plan_grasps_action pipeline canceling goal).result.error_code ≢ planning_failed
    execute-ne-planning_failed gives some_candidate =
        failed_without_grasps gives some_candidate _ (execute-Outcome pipeline goal canceling)
