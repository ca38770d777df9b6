-- ===== src/MotionSkill/Tests.antt =====
-- The motion skill at a concrete group, over the planning node.
use intrinsic_moveit.Prelude.{ℤ, pos, [], ◌∷◌, some, true, ◌≡◌, ◌≢◌, ◌↔◌, refl, arith, ok}
use intrinsic_moveit.Double.{milli_double}
use intrinsic_moveit.PlanningNode.Requests.{MotionPlanResponse}
use intrinsic_moveit.MotionSkill.{MotionPlanningParams, MotionPlanningResult, execute}
use intrinsic_moveit.MotionSkill.Laws.{Gets, IsResult, execute-ok, node_service, execute-untraveled}

abbrev params : MotionPlanningParams ℤ
params = record { group_name = 117 ∷ 114 ∷ []; timeout_ms = pos 5000000 }

abbrev result : MotionPlanningResult ℤ
result = record {
  success = true;
  planning_time = pos 50;
  geometric_trajectory = [];
  parameterized_trajectory = [];
}

execute-ok_example : (execute (node_service (pos 100) (pos 20) true) params ≡ some (ok result)) ↔ (
    (response : MotionPlanResponse ℤ) × Gets (node_service (pos 100) (pos 20) true) params response
    × IsResult response result)
execute-ok_example = execute-ok (node_service (pos 100) (pos 20) true) params result

named : params.group_name ≢ []
named = λ e. ground arith

execute-untraveled_example :
    (answer : MotionPlanningResult ℤ) × (execute (node_service (pos 100) (pos 20) true) params
      ≡ some (ok answer))
    × (answer.success ≡ true)
    × (answer.geometric_trajectory ≡ [])
    × (answer.parameterized_trajectory ≡ [])
execute-untraveled_example =
    execute-untraveled (pos 100) (pos 20) true params (pos 5000) named refl refl refl refl
