-- ===== src/StatusMonitor/Health/Spec.antt =====
-- What a healthy planning stack is, apart from the order in which check_health looks.
use intrinsic_moveit.Prelude.{ℕ, ◌<◌, ℤ, mem_str, All, [], none, true, false, ◌≡◌, ◌≢◌}
use intrinsic_moveit.Double.{Double, milliseconds}
use intrinsic_moveit.Parameters.{get_double_parameter}
use intrinsic_moveit.StatusMonitor.Health.{Settings, JointCache, Surroundings, replied}

module _ {W : Type 0} ⦃d : Double W⦄ (c : Settings W) where
  abbrev pub scene_timeout : ℤ
  scene_timeout = milliseconds (get_double_parameter c.ros_service_call_timeout_sec (d.ratio 2 1))

  abbrev pub joint_state_timeout : W
  joint_state_timeout = get_double_parameter c.joint_state_timeout_sec (d.ratio 3 1)

  -- The joint states stream, given the number of joints in MoveIt's own robot state.
  pub record JointStatesHealthy (cache : JointCache) (s : Surroundings W) (joints : ℕ)
      : Type 0 where
    pub seen : 0 < cache.last_joint_state_time
    pub fresh : d.lt joint_state_timeout (s.seconds_since cache.last_joint_state_time s.now) ≡ false
    pub complete : All (λ j. mem_str j cache.received_joint_names ≡ true) c.expected_joints
    pub tracked : 0 < joints

  pub record TransformsHealthy (s : Surroundings W) : Type 0 where
    pub base :
        c.robot_base_frame ≢ []
        → c.planning_frame ≢ []
        → s.transform_error c.planning_frame c.robot_base_frame ≡ none
    pub tool :
        c.tool_frame ≢ []
        → c.robot_base_frame ≢ []
        → s.transform_error c.robot_base_frame c.tool_frame ≡ none

  pub record IsHealthy (cache : JointCache) (s : Surroundings W) : Type 0 where
    pub objects : ℕ
    pub joints : ℕ
    pub scene_up : s.scene_service_up scene_timeout ≡ true
    pub scene_replied : s.scene_reply scene_timeout ≡ replied objects joints
    pub motion_ready : s.motion_plan_ready ≡ true
    pub grasp_ready : s.grasp_plan_ready ≡ true
    pub populated : c.use_mock_hardware ≡ false → c.expect_collision_objects ≡ true → 0 < objects
    pub joint_states : c.use_mock_hardware ≡ false → JointStatesHealthy cache s joints
    pub transforms : TransformsHealthy s
