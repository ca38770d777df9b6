-- ===== src/PlanningNode/Action.antt =====
-- moveit_planning_service/src/moveit_planning_node.cpp: PlanGraspsForCandidate and
-- execute_plan_grasps_action, the run of one accepted grasp planning goal. The pipeline is a
-- function of the goal, the candidate and its index; `canceling` is what is_canceling() answers
-- before each candidate.
pub mod Sort
pub mod Outcome
pub mod Best
mod Tests
use intrinsic_moveit.Prelude.{
  ℕ, zero, suc, ◌+◌, ◌%◌, ◌^◌, ℤ, pos, negsuc, List, [], ◌∷◌, ◌++◌, Option, none, some, Bool,
  length, take, is_empty, if◌then◌else◌,
}
use intrinsic_moveit.Double.{Double}
use intrinsic_moveit.Messages.{
  GraspCandidate, PlanGraspsGoal, RankedGrasp, PlanGraspsResult, MoveItErrorCode, success, failure,
  planning_failed, preempted,
}
use Sort.{sort_by_quality}

abbrev pub Pipeline : Type 0 → Type 0
Pipeline W = PlanGraspsGoal W → GraspCandidate W → ℕ → PlanGraspsResult W

-- static_cast<uint32_t>
abbrev pub u32 : ℕ → ℕ
u32 n = n % 2 ^ 32

grasps_if_success : {W : Type 0} → PlanGraspsResult W → Option (List (RankedGrasp W))
grasps_if_success result = elim result.error_code [ success ↦ some result.ranked_grasps | _ ↦ none ]

unfoldable pub plan_grasps_for_candidate :
    {W : Type 0}
    → Pipeline W
    → PlanGraspsGoal W
    → GraspCandidate W
    → ℕ
    → Option (List (RankedGrasp W))
unfolding grasps_if_success
plan_grasps_for_candidate pipeline goal candidate index =
    grasps_if_success (pipeline goal candidate index)

-- How the goal handle ends, in `succeed`, `abort` or `canceled`.
pub data Terminal : Type 0 where
  succeeded aborted canceled : Terminal

-- The result and the feedback so far: the counts of completed candidates, in order.
pub record Progress (W : Type 0) : Type 0 where
  pub grasps : List (RankedGrasp W)
  pub feedback : List ℕ

pub record ActionRun (W : Type 0) : Type 0 where
  pub terminal : Terminal
  pub result : PlanGraspsResult W
  pub total_candidates : ℕ
  pub feedback : List ℕ

-- The loop over the candidates ends early, or goes on to the sorting.
pub data LoopEnd : Type 0 where
  loop_canceled loop_failed loop_done : LoopEnd

unfoldable pub max_grasps : ℤ → ℕ
max_grasps (pos zero) = 1
max_grasps (pos (suc n)) = suc n
max_grasps (negsuc n) = 1

-- What the loop does after PlanGraspsForCandidate; `next` is the rest of the loop.
after_candidate :
    {W : Type 0}
    → Option (List (RankedGrasp W))
    → ℕ
    → Progress W
    → (Progress W → Progress W × LoopEnd)
    → Progress W × LoopEnd
after_candidate none index progress next = (progress, loop_failed)
after_candidate (some grasps) index progress next = next (record {
  grasps = progress.grasps ++ grasps;
  feedback = progress.feedback ++ (u32 (index + 1) ∷ []);
})

module _ {W : Type 0} (pipeline : Pipeline W) (canceling : ℕ → Bool) (goal : PlanGraspsGoal W) where
  -- The candidates from `index` on.
  plan_candidates : ℕ → List (GraspCandidate W) → Progress W → Progress W × LoopEnd
  unfolding after_candidate
  plan_candidates index [] progress = (progress, loop_done)
  plan_candidates index (candidate ∷ rest) progress =
      if canceling index
      then (progress, loop_canceled)
      else after_candidate (plan_grasps_for_candidate pipeline goal candidate (u32 index)) index
          progress (plan_candidates (index + 1) rest)

module _ {W : Type 0} ⦃d : Double W⦄ where
  -- Sort, cut to the number asked for, and succeed unless nothing is left.
  finish : PlanGraspsGoal W → List (RankedGrasp W) → PlanGraspsResult W × Terminal
  finish goal grasps =
      let sorted = take (max_grasps goal.max_num_grasps) (sort_by_quality grasps) in
      if is_empty sorted
      then (record { ranked_grasps = sorted; error_code = planning_failed }, aborted)
      else (record { ranked_grasps = sorted; error_code = success }, succeeded)

  end_action : PlanGraspsGoal W → Progress W → LoopEnd → PlanGraspsResult W × Terminal
  unfolding finish
  end_action goal progress loop_canceled =
      (record { ranked_grasps = progress.grasps; error_code = preempted }, canceled)
  end_action goal progress loop_failed =
      (record { ranked_grasps = progress.grasps; error_code = failure }, aborted)
  end_action goal progress loop_done = finish goal progress.grasps

  unfoldable pub execute_plan_grasps_action :
      Pipeline W → (ℕ → Bool) → PlanGraspsGoal W → ActionRun W
  unfolding plan_candidates end_action
  execute_plan_grasps_action pipeline canceling goal =
      let (progress, loop_end) =
        plan_candidates pipeline canceling goal 0 goal.candidates
          (record { grasps = []; feedback = [] }) in
      let (result, terminal) = end_action goal progress loop_end in
      record {
        terminal = terminal;
        result = result;
        total_candidates = u32 (length goal.candidates);
        feedback = progress.feedback;
      }
