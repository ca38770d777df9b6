-- ===== src/StatusMonitor/Health/Laws.antt =====
-- check_health against the specification.
use intrinsic_moveit.Prelude.{
  ℕ, Str, mem_str, All, List, [], ◌∷◌, true, false, ◌≡◌, ◌↔◌, refl, arith, sym, ◌∙◌, false≢true,
}
use intrinsic_moveit.Double.{Double}
use intrinsic_moveit.StatusMonitor.Health.{
  Settings, JointCache, Surroundings, replied, Check, stop, pass, check_expected_joints,
  check_joint_states, check_transforms, check_move_group, run_checks, report_of, check_health,
  SceneReply, timed_out, threw,
}
use intrinsic_moveit.StatusMonitor.Health.Reports.{run_checks-stop}
use intrinsic_moveit.StatusMonitor.Health.Spec.{
  JointStatesHealthy, TransformsHealthy, IsHealthy, scene_timeout,
}

expected_joints-pass :
    (received expected : List Str)
    → (check_expected_joints received expected ≡ pass tt)
      ↔ All (λ j. mem_str j received ≡ true) expected
unfolding check_expected_joints
expected_joints-pass received [] = (λ _. tt, λ _. refl)
expected_joints-pass received (j ∷ js) = (
  λ h. ground (arith, (expected_joints-pass received js).0),
  λ h. ground (arith, (expected_joints-pass received js).1),
)

module _ {W : Type 0} ⦃d : Double W⦄ (c : Settings W) where
  joint_states-pass :
      (cache : JointCache) (s : Surroundings W) (n : ℕ)
      → (check_joint_states c cache s n ≡ pass tt) ↔ JointStatesHealthy c cache s n
  unfolding check_joint_states
  joint_states-pass cache s n = (
    λ h. ground (arith, (expected_joints-pass cache.received_joint_names c.expected_joints).0),
    λ h. ground (arith, (expected_joints-pass cache.received_joint_names c.expected_joints).1),
  )

  transforms-pass : (s : Surroundings W) → (check_transforms c s ≡ pass tt) ↔ TransformsHealthy c s
  unfolding check_transforms
  transforms-pass s = (λ h. ground arith, λ h. ground arith)

  IsHealthy-of_pass :
      (cache : JointCache) (s : Surroundings W) (r : SceneReply)
      → s.scene_reply (scene_timeout c) ≡ r
      → run_checks c cache s ≡ pass tt
      → IsHealthy c cache s
  unfolding run_checks check_move_group
  IsHealthy-of_pass cache s timed_out e h = absurd (ground arith)
  IsHealthy-of_pass cache s (threw what) e h = absurd (ground arith)
  IsHealthy-of_pass cache s (replied n j) e h = record {
    objects = n;
    joints = j;
    scene_up = ground arith;
    scene_replied = e;
    motion_ready = ground arith;
    grasp_ready = ground arith;
    populated = ground arith;
    joint_states = λ m. (joint_states-pass cache s j).0 (ground arith);
    transforms = (transforms-pass s).0 (ground arith);
  }

  pass_of_healthy :
      (cache : JointCache) (s : Surroundings W)
      → IsHealthy c cache s
      → run_checks c cache s ≡ pass tt
  unfolding run_checks check_move_group
  pass_of_healthy cache s h = ground (
    arith,
    (transforms-pass s).1 h.transforms,
    λ (m : c.use_mock_hardware ≡ false). (joint_states-pass cache s h.joints).1 (h.joint_states m),
  )

  -- A report says healthy exactly when move_group answers, both planning endpoints are ready, the
  -- scene is populated where that is expected, the joint states are live and complete unless the
  -- hardware is mocked, and the named frames are joined.
  pub check_health-healthy :
      (cache : JointCache) (s : Surroundings W)
      → ((check_health c cache s).healthy ≡ true) ↔ IsHealthy c cache s
  unfolding check_health
  check_health-healthy cache s = (
    λ h. IsHealthy-of_pass cache s _ refl (pass_of_report (run_checks c cache s) refl h),
    λ h. rw (pass_of_healthy cache s h, report_of) refl,
  )
    where
      pass_of_report :
          (m : Check (Unit {0}))
          → run_checks c cache s ≡ m
          → (report_of m).healthy ≡ true
          → run_checks c cache s ≡ pass tt
      pass_of_report (stop r) e h = absurd (false≢true (sym (run_checks-stop c cache s e) ∙ h))
      pass_of_report (pass _) e h = e
