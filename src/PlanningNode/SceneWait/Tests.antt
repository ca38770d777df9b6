-- ===== src/PlanningNode/SceneWait/Tests.antt =====
-- The wait for the scene at a concrete run of three rounds.
use intrinsic_moveit.Prelude.{[], ◌∷◌, List, true, false, ◌≡◌, ◌⊎◌, ◌↔◌}
use intrinsic_moveit.PlanningNode.SceneWait.{
  Waiting, Round, answer, answer_timeout, orchestrate_scene_synchronization,
}
use intrinsic_moveit.PlanningNode.SceneWait.Laws.{Reaches, orchestrate-ready}

abbrev waiting : Waiting
waiting = record {
  expect_collision_objects = true;
  use_mock_hardware = false;
  has_synchronizer = true;
}

abbrev rounds : List Round
rounds =
    record { goes_on = true; service_up = false; scene_answer = answer_timeout }
    ∷ record { goes_on = true; service_up = true; scene_answer = answer 0 6 }
    ∷ record { goes_on = true; service_up = true; scene_answer = answer 4 6 }
    ∷ []

orchestrate-ready_example :
    ((orchestrate_scene_synchronization waiting rounds).scene_ready ≡ true)
    ↔ ((false ≡ true) ⊎ Reaches true rounds)
orchestrate-ready_example = orchestrate-ready waiting rounds
