-- ===== src/StatusMonitor/Service.antt =====
-- moveit_planning_service/src/status_monitor.cpp: trigger_scene_synchronization and the gRPC
-- service ServiceStateImpl. A run is a list of calls and joint state messages, each with what the
-- libraries answered during it.
pub mod Laws
mod Tests
use intrinsic_moveit.Prelude.{
  ℕ, ℤ, pos, Str, codes, List, [], ◌∷◌, ◌++◌, Option, none, some, Bool, true, false, not, ◌||◌,
  Code, internal, Status, ok_status, failed, if◌then◌else◌,
}
use intrinsic_moveit.Double.{Double}
use intrinsic_moveit.StatusMonitor.Health.{
  SubsystemHealthReport, Settings, JointCache, Surroundings, record_joint_state, check_health,
}

-- MoveItStatusClient: the disabled flag, the parameters and the joint state cache.
pub record Client (W : Type 0) : Type 0 where
  pub is_disabled : Bool
  pub settings : Settings W
  pub cache : JointCache

unfoldable pub set_disabled : {W : Type 0} → Bool → Client W → Client W
set_disabled b c = record c { is_disabled = b }

-- What became of the request to the bridge: its `success` and message, or an exception.
pub data TriggerReply : Type 0 where
  trigger_timed_out : TriggerReply
  trigger_threw : Str → TriggerReply
  trigger_replied : Bool → Str → TriggerReply

pub record Bridge : Type 0 where
  pub service_up : ℤ → Bool
  pub reply : ℤ → TriggerReply

abbrev trigger_success : TriggerReply → Bool
trigger_success trigger_timed_out = false
trigger_success (trigger_threw what) = false
trigger_success (trigger_replied success message) = success

unfoldable pub trigger_scene_synchronization : Bridge → ℤ → Bool
trigger_scene_synchronization b timeout =
    if b.service_up timeout then trigger_success (b.reply timeout) else false

pub data StateCode : Type 0 where
  state_disabled state_enabled state_error : StateCode

-- SelfState; the extended status is the title, the user message and the instructions.
pub record SelfState : Type 0 where
  pub state_code : StateCode
  pub extended_status : Option (Str × Str × Str)

state_of : SubsystemHealthReport → SelfState
state_of report =
    if report.healthy
    then record { state_code = state_enabled; extended_status = none }
    else record {
      state_code = state_error;
      extended_status = some (report.title, report.message, report.instructions);
    }

-- One call of the service, or one joint state message with the time at which it came.
pub data Call (W : Type 0) : Type 0 where
  gets_state : Surroundings W → Call W
  enables : Bridge → JointCache → Surroundings W → Call W
  disables : Call W
  hears_joints : ℕ → List Str → Call W

module _ {W : Type 0} ⦃d : Double W⦄ where
  unfoldable pub get_state : Client W → Surroundings W → SelfState
  unfolding state_of
  get_state c s =
      if c.is_disabled
      then record { state_code = state_disabled; extended_status = none }
      else state_of (check_health c.settings c.cache s)

  -- The status of Enable once the bridge has been asked; `cache` and `s` are as the health check
  -- finds them after the 500 ms pause.
  enable_status : Client W → Bridge → JointCache → Surroundings W → Status
  enable_status c b cache s =
      if c.settings.use_mock_hardware || trigger_scene_synchronization b (pos 5000)
      then (let report = check_health c.settings cache s in
          if report.healthy
          then ok_status
          else failed (record {
            code = internal;
            message = codes "Enable failed: " ++ (report.title ++ (codes " - " ++ report.message));
          }))
      else failed (record {
        code = internal;
        message = codes "Failed to synchronize collision scene in moveit_planning_service";
      })

  unfoldable pub enable : Client W → Bridge → JointCache → Surroundings W → Client W × Status
  unfolding enable_status set_disabled
  enable c b cache s =
      let c' = record (set_disabled false c) { cache = cache } in (c', enable_status c' b cache s)

  unfoldable pub disable : Client W → Client W × Status
  unfolding set_disabled
  disable c = (set_disabled true c, ok_status)

  unfoldable pub step : Client W → Call W → Client W
  step c (gets_state s) = c
  step c (enables b cache s) = (enable c b cache s).0
  step c disables = (disable c).0
  step c (hears_joints now names) = record c { cache = record_joint_state now names c.cache }

  unfoldable pub run : Client W → List (Call W) → Client W
  run c [] = c
  run c (e ∷ es) = run (step c e) es
