-- ===== src/GraspSkill/Execute/Results.antt =====
-- moveit_plan_grasp_skill/src/moveit_plan_grasp_skill/moveit_plan_grasp_skill.cpp:
-- GraspPlanningSkill::Execute, the loop that checks the ranked grasps.
use intrinsic_moveit.Prelude.{
  codes, is_empty, length, get_elem?, ◌==◌, List, [], ◌∷◌, ◌++◌, Option, none, some, Bool, ◌||◌,
  not, StatusOr, ok, fail, guard, ◌>>=◌, ◌>>◌, internal,
}
use intrinsic_moveit.Messages.{PoseStamped, JointState, Grasp, RankedGrasp}
use intrinsic_moveit.GraspSkill.Params.{ObjectReference}

pub record ObjectPlanningResult (W : Type 0) : Type 0 where
  pub candidate_object : ObjectReference
  pub grasp : Grasp W
  pub pre_grasp_pose : PoseStamped W
  pub grasp_ik_solution : JointState W
  pub pregrasp_ik_solution : JointState W

module _ {W : Type 0} where
  -- The test on an IK solution.
  unfoldable pub ik_invalid : JointState W → Bool
  ik_invalid solution =
      is_empty solution.position || not (length solution.name == length solution.position)

  -- One iteration of the loop over the ranked grasps, with the object at its candidate index, or
  -- `none` when the index is not below the number of objects. The message leaves out the index.
  unfoldable pub planning_result :
      Option ObjectReference → RankedGrasp W → StatusOr (ObjectPlanningResult W)
  planning_result none ranked =
      fail internal (codes "Grasp planning action returned invalid candidate index.")
  planning_result (some candidate) ranked = do
    guard (not (ik_invalid ranked.grasp_ik_solution)) internal
        (codes "Invalid grasp IK solution returned for object '" ++ ranked.target_id ++ codes "'.")
    guard (not (ik_invalid ranked.pregrasp_ik_solution)) internal (
        codes "Invalid pregrasp IK solution returned for object '"
        ++ ranked.target_id
        ++ codes "'.")
    ok (record {
      candidate_object = candidate;
      grasp = ranked.grasp;
      pre_grasp_pose = ranked.pre_grasp_pose;
      grasp_ik_solution = ranked.grasp_ik_solution;
      pregrasp_ik_solution = ranked.pregrasp_ik_solution;
    })

  unfoldable pub planning_results :
      List ObjectReference → List (RankedGrasp W) → StatusOr (List (ObjectPlanningResult W))
  planning_results objects [] = ok []
  planning_results objects (ranked ∷ rest) = do
    result ← planning_result (get_elem? objects ranked.candidate_index) ranked
    results ← planning_results objects rest
    ok (result ∷ results)
