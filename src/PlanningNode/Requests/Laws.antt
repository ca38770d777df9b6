-- ===== src/PlanningNode/Requests/Laws.antt =====
-- Which goals the action server accepts.
use intrinsic_moveit.Prelude.{All, List, [], ◌∷◌, Bool, true, ◌≡◌, ◌≢◌, ◌↔◌, refl, arith}
use intrinsic_moveit.Messages.{PlanGraspsGoal, GraspCandidate}
use intrinsic_moveit.PlanningNode.Requests.{
  check_candidates, handle_plan_grasps_goal, accept_and_execute,
}

-- Every candidate names its target.
abbrev pub AllNamed : {W : Type 0} → List (GraspCandidate W) → Type 0
AllNamed = All (λ c. c.target_id ≢ [])

check_candidates-accept :
    {W : Type 0} (cs : List (GraspCandidate W))
    → (check_candidates cs ≡ accept_and_execute) ↔ AllNamed cs
unfolding check_candidates
check_candidates-accept [] = (λ _. tt, λ _. refl)
check_candidates-accept (c ∷ cs) = (
  λ h. ground (arith, (check_candidates-accept cs).0),
  λ h. ground (arith, (check_candidates-accept cs).1),
)

-- A grasp planning goal is accepted exactly when the collision scene is ready, it has a candidate,
-- and every candidate names its target.
pub goal-accepted :
    {W : Type 0} (scene_ready : Bool) (goal : PlanGraspsGoal W)
    → (handle_plan_grasps_goal scene_ready goal ≡ accept_and_execute)
      ↔ ((scene_ready ≡ true) × (goal.candidates ≢ []) × AllNamed goal.candidates)
unfolding handle_plan_grasps_goal
goal-accepted scene_ready goal = (
  λ h. (ground arith, ground arith, (check_candidates-accept goal.candidates).0 (ground arith)),
  λ h. ground (arith, (check_candidates-accept goal.candidates).1 h.2),
)
