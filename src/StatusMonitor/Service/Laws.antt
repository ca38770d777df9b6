-- ===== src/StatusMonitor/Service/Laws.antt =====
-- The service's replies, and its state over any run.
use intrinsic_moveit.Prelude.{
  pos, ℤ, Bool-cases, Str, is_empty, List, [], ◌∷◌, some, Bool, true, false, ◌≡◌, ◌↔◌, ◌⊎◌, inl,
  inr, refl, ok_status, arith,
}
use intrinsic_moveit.Double.{Double}
use intrinsic_moveit.StatusMonitor.Health.{JointCache, Surroundings, check_health}
use intrinsic_moveit.StatusMonitor.Health.Spec.{IsHealthy}
use intrinsic_moveit.StatusMonitor.Health.Reports.{check_health-IsExplained}
use intrinsic_moveit.StatusMonitor.Health.Laws.{check_health-healthy}
use intrinsic_moveit.StatusMonitor.Service.{
  Client, Bridge, TriggerReply, trigger_timed_out, trigger_threw, trigger_replied, trigger_success,
  trigger_scene_synchronization, state_disabled, state_enabled, state_error, get_state, enable,
  disable, Call, gets_state, enables, disables, hears_joints, step, run,
}

-- What the last Enable or Disable of a run asked for.
abbrev pub last_switch : {W : Type 0} → Bool → List (Call W) → Bool
last_switch b [] = b
last_switch b (enables _ _ _ ∷ es) = last_switch false es
last_switch b (disables ∷ es) = last_switch true es
last_switch b (gets_state _ ∷ es) = last_switch b es
last_switch b (hears_joints _ _ ∷ es) = last_switch b es

-- The bridge is up, and replies with success.
pub record IsSynchronizing (b : Bridge) (timeout : ℤ) : Type 0 where
  pub up : b.service_up timeout ≡ true
  pub message : Str
  pub replied_ok : b.reply timeout ≡ trigger_replied true message

succeeded :
    (r : TriggerReply)
    → trigger_success r ≡ true
    → (message : Str) × (r ≡ trigger_replied true message)
succeeded trigger_timed_out h = absurd (cc)
succeeded (trigger_threw what) h = absurd (cc)
succeeded (trigger_replied true message) h = (message, refl)
succeeded (trigger_replied false message) h = absurd (cc)

trigger_scene_synchronization-ok :
    (b : Bridge) (timeout : ℤ)
    → (trigger_scene_synchronization b timeout ≡ true) ↔ IsSynchronizing b timeout
unfolding trigger_scene_synchronization
trigger_scene_synchronization-ok b timeout = (
  λ h.
      (let (message, e) = succeeded (b.reply timeout) (ground arith) in
        record { up = ground arith; message = message; replied_ok = e }),
  λ x. rw (x.up, x.replied_ok) refl,
)

module _ {W : Type 0} ⦃d : Double W⦄ where
  is_disabled-run :
      (c : Client W) (es : List (Call W)) → (run c es).is_disabled ≡ last_switch c.is_disabled es
  unfolding run step enable disable
  is_disabled-run c [] = refl
  is_disabled-run c (enables b cache s ∷ es) = is_disabled-run (enable c b cache s).0 es
  is_disabled-run c (disables ∷ es) = is_disabled-run (disable c).0 es
  is_disabled-run c (gets_state s ∷ es) = is_disabled-run c es
  is_disabled-run c (hears_joints now names ∷ es) =
      is_disabled-run (step c (hears_joints now names)) es

  -- After any run from an enabled client, GetState answers "disabled" exactly if the last Enable or
  -- Disable was a Disable, whether or not that Enable succeeded.
  pub get_state-disabled :
      (c : Client W) (es : List (Call W)) (s : Surroundings W)
      → c.is_disabled ≡ false
      → ((get_state (run c es) s).state_code ≡ state_disabled) ↔ (last_switch false es ≡ true)
  unfolding get_state
  get_state-disabled c es s h =
      (λ e. ground (arith, is_disabled-run c es), λ e. ground (arith, is_disabled-run c es))

  -- A client that is not disabled answers "enabled" exactly when the planning stack is healthy, and
  -- "error" with an extended status that has a title otherwise.
  pub get_state-enabled :
      (c : Client W) (s : Surroundings W)
      → c.is_disabled ≡ false
      → (((get_state c s).state_code ≡ state_enabled) ↔ IsHealthy c.settings c.cache s)
        × (¬ IsHealthy c.settings c.cache s
            → ((get_state c s).state_code ≡ state_error)
              × (t : Str × Str × Str) × ((get_state c s).extended_status ≡ some t)
              × (is_empty t.0 ≡ false))
  unfolding get_state
  get_state-enabled c s h = (
    (λ e. ground (arith, report.0), λ e. ground (arith, report.1 e)),
    λ n. elim (check_health-IsExplained c.settings c.cache s) [
      | inl ok ↦ absurd (n (report.0 ok.0))
      | inr bad ↦
          let r = check_health c.settings c.cache s in
          (ground arith, (r.title, r.message, r.instructions), ground arith, bad.1)
    ],
  )
    where
      report : ((check_health c.settings c.cache s).healthy ≡ true) ↔ IsHealthy c.settings c.cache s
      report = check_health-healthy c.settings c.cache s

  -- Enable succeeds exactly when the hardware is mocked or the bridge is up and replies with success,
  -- each within five seconds, and the health check after it passes; it enables the client whether it
  -- succeeds or not.
  pub enable-ok :
      (c : Client W) (b : Bridge) (cache : JointCache) (s : Surroundings W)
      → ((enable c b cache s).0.is_disabled ≡ false)
        × (((enable c b cache s).1 ≡ ok_status) ↔ (
            ((c.settings.use_mock_hardware ≡ true) ⊎ IsSynchronizing b (pos 5000))
            × IsHealthy c.settings cache s))
  unfolding enable
  enable-ok c b cache s = (
    refl,
    (
      λ e. elim (Bool-cases c.settings.use_mock_hardware) [
        | inl k ↦ (inl k, report.0 (ground arith))
        | inr k ↦ (inr (trigger.0 (ground arith)), report.0 (ground arith))
      ],
      λ e. elim e.0 [
        | inl k ↦ ground (arith, report.1 e.1)
        | inr k ↦ (let t = trigger.1 k in ground (arith, t, report.1 e.1))
      ],
    ),
  )
    where
      trigger : (trigger_scene_synchronization b (pos 5000) ≡ true) ↔ IsSynchronizing b (pos 5000)
      trigger = trigger_scene_synchronization-ok b (pos 5000)

      report : ((check_health c.settings cache s).healthy ≡ true) ↔ IsHealthy c.settings cache s
      report = check_health-healthy c.settings cache s
