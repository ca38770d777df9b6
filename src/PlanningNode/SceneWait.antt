-- ===== src/PlanningNode/SceneWait.antt =====
-- moveit_planning_service/src/moveit_planning_node.cpp: orchestrate_scene_synchronization, the
-- thread that waits until MoveIt's planning scene is populated. A round of its loop is what the
-- libraries answer in it; a run is the list of rounds that happen before the program stops.
pub mod Laws
mod Tests
use intrinsic_moveit.Prelude.{
  ℕ, zero, suc, ◌+◌, List, [], ◌∷◌, Bool, true, false, not, ◌&&◌, ◌||◌, ◌==◌, if◌then◌else◌,
}

-- The answer to the query of WORLD_OBJECT_NAMES and ROBOT_STATE: the numbers of collision objects
-- and of robot state joints.
pub data SceneAnswer : Type 0 where
  answer_timeout answer_exception : SceneAnswer
  answer : ℕ → ℕ → SceneAnswer

pub record Round : Type 0 where
  -- rclcpp::ok() && !scene_ready->load(), as the loop finds it
  pub goes_on : Bool
  -- wait_for_service(retry_interval)
  pub service_up : Bool
  pub scene_answer : SceneAnswer

pub record Waiting : Type 0 where
  pub expect_collision_objects : Bool
  pub use_mock_hardware : Bool
  pub has_synchronizer : Bool

-- The thread's effects: what it stored in `scene_ready`, and how often it synchronized the scene.
pub record Waited : Type 0 where
  pub scene_ready : Bool
  pub synchronizations : ℕ

-- Step 4: the test on the scene's answer.
unfoldable pub scene_verified : Waiting → SceneAnswer → Bool
scene_verified w answer_timeout = false
scene_verified w answer_exception = false
scene_verified w (answer objects joints) =
    let collision_ok = not w.expect_collision_objects || not (objects == 0) in
    let robot_state_ok = w.use_mock_hardware || not (joints == 0) in collision_ok && robot_state_ok

-- Step 2: fetchAndSynchronizeCollisionObjects, if a synchronizer is there. A failure is logged only.
synchronize : Waiting → Waited → Waited
synchronize w s =
    if w.has_synchronizer then record s { synchronizations = s.synchronizations + 1 } else s

wait_loop : Waiting → List Round → Waited → Waited
unfolding synchronize
wait_loop w [] s = s
wait_loop w (r ∷ rs) s =
    let next = wait_loop w rs s in
    let s' = synchronize w s in
    let retry = wait_loop w rs s' in
    if not r.goes_on
    then s
    else if not r.service_up
    then next
    else if not w.expect_collision_objects
    then record s' { scene_ready = true }
    else if scene_verified w r.scene_answer
    then record s' { scene_ready = true }
    else retry

unfoldable pub orchestrate_scene_synchronization : Waiting → List Round → Waited
unfolding wait_loop
orchestrate_scene_synchronization w rounds =
    if w.use_mock_hardware
    then record { scene_ready = true; synchronizations = 0 }
    else wait_loop w rounds (record { scene_ready = false; synchronizations = 0 })
