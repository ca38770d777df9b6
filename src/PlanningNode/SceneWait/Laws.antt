-- ===== src/PlanningNode/SceneWait/Laws.antt =====
-- When the scene becomes ready.
use intrinsic_moveit.Prelude.{
  ◌<◌, List, [], ◌∷◌, Bool, true, false, Bool-cases, ◌≡◌, ◌↔◌, ◌⊎◌, inl, inr, refl, arith, ◌∙◌,
}
use intrinsic_moveit.PlanningNode.SceneWait.{
  SceneAnswer, answer, Round, Waiting, Waited, scene_verified, synchronize, wait_loop,
  answer_timeout, answer_exception, orchestrate_scene_synchronization,
}

-- A round that makes the scene ready when collision objects are expected: both the objects and the
-- robot's joints are there.
abbrev pub IsPopulated : SceneAnswer → Type 0
IsPopulated (answer objects joints) = (0 < objects) × (0 < joints)
IsPopulated _ = ⊥

-- Some round runs before the loop stops, finds the service up, and finds the scene populated where
-- that is expected.
abbrev pub Reaches : Bool → List Round → Type 0
Reaches expect [] = ⊥
Reaches expect (r ∷ rs) =
    (r.goes_on ≡ true)
    × (((r.service_up ≡ true) × ((expect ≡ false) ⊎ IsPopulated r.scene_answer))
        ⊎ Reaches expect rs)

scene_verified-IsPopulated :
    (w : Waiting) (a : SceneAnswer)
    → w.use_mock_hardware ≡ false
    → w.expect_collision_objects ≡ true
    → (scene_verified w a ≡ true) ↔ IsPopulated a
unfolding scene_verified
scene_verified-IsPopulated w answer_timeout m x = (λ e. absurd (cc), λ e. absurd e)
scene_verified-IsPopulated w answer_exception m x = (λ e. absurd (cc), λ e. absurd e)
scene_verified-IsPopulated w (answer n j) m x = (λ e. ground arith, λ e. ground arith)

scene_ready-synchronize : (w : Waiting) (s : Waited) → (synchronize w s).scene_ready ≡ s.scene_ready
unfolding synchronize
scene_ready-synchronize w s = ground arith

wait_loop-ready :
    (w : Waiting) (rs : List Round) (s : Waited)
    → w.use_mock_hardware ≡ false
    → s.scene_ready ≡ false
    → ((wait_loop w rs s).scene_ready ≡ true) ↔ Reaches w.expect_collision_objects rs
unfolding wait_loop
wait_loop-ready w [] s m h = (λ e. absurd (ground arith), λ r. elim r [ ])
wait_loop-ready w (r ∷ rs) s m h = (
  λ e. ground (
    arith,
    λ (x : w.expect_collision_objects ≡ true). (scene_verified-IsPopulated w r.scene_answer m x).0,
    (wait_loop-ready w rs s m h).0,
    (wait_loop-ready w rs (synchronize w s) m (scene_ready-synchronize w s ∙ h)).0,
  ),
  λ e. ground (
    arith,
    λ (x : w.expect_collision_objects ≡ true). (scene_verified-IsPopulated w r.scene_answer m x).1,
    (wait_loop-ready w rs s m h).1,
    (wait_loop-ready w rs (synchronize w s) m (scene_ready-synchronize w s ∙ h)).1,
  ),
)

-- With mocked hardware the scene is ready at once. Otherwise it becomes ready exactly if some round,
-- run before the loop stops, finds the planning scene service up and, where collision objects are
-- expected, a scene with at least one object and one robot joint.
pub orchestrate-ready :
    (w : Waiting) (rounds : List Round)
    → ((orchestrate_scene_synchronization w rounds).scene_ready ≡ true)
      ↔ ((w.use_mock_hardware ≡ true) ⊎ Reaches w.expect_collision_objects rounds)
unfolding orchestrate_scene_synchronization
orchestrate-ready w rounds = elim (Bool-cases w.use_mock_hardware) [
  | inl m ↦ (λ e. inl m, λ r. rw m refl)
  | inr m ↦ (λ e. inr (ground (arith, (waits m).0)), λ r. ground (arith, (waits m).1))
]
  where
    start : Waited
    start = record { scene_ready = false; synchronizations = 0 }

    waits :
        w.use_mock_hardware ≡ false
        → ((wait_loop w rounds start).scene_ready ≡ true)
          ↔ Reaches w.expect_collision_objects rounds
    waits m = wait_loop-ready w rounds start m refl
