-- ===== src/StatusMonitor/Health/Reports.antt =====
-- What every report of check_health says.
use intrinsic_moveit.Prelude.{
  ℕ, Str, codes, is_empty, List, [], ◌∷◌, true, false, ◌≡◌, refl, Bool, ◌⊎◌, inl, inr,
  if◌then◌else◌,
}
use intrinsic_moveit.Double.{Double}
use intrinsic_moveit.StatusMonitor.Health.{
  SubsystemHealthReport, Settings, JointCache, Surroundings, SceneReply, replied, timed_out, threw,
  Check, stop, pass, ◌>>=◌, require, scene_sizes, check_expected_joints, check_joint_states,
  check_transforms, check_move_group, run_checks, report_of, check_health,
}

-- An unhealthy report with something to say in each of its texts.
abbrev pub IsExplained : SubsystemHealthReport → Type 0
IsExplained r =
    (r.healthy ≡ false)
    × (is_empty r.title ≡ false)
    × (is_empty r.message ≡ false)
    × (is_empty r.instructions ≡ false)

abbrev pub IsAllClear : SubsystemHealthReport → Type 0
IsAllClear r = (r.healthy ≡ true) × (r.title ≡ []) × (r.message ≡ []) × (r.instructions ≡ [])

abbrev StopExplained : {A : Type 0} → Check A → Type 0
StopExplained (stop r) = IsExplained r
StopExplained (pass a) = Unit

-- The check, if it stops, stops with an explained report.
record IsSound {A : Type 0} (m : Check A) : Type 0 where
  at : StopExplained m

bind-IsSound :
    {A B : Type 0} (m : Check A) (f : A → Check B)
    → IsSound m
    → ((a : A) → IsSound (f a))
    → IsSound (m >>= f)
bind-IsSound (stop r) f h k = record { at = h.at }
bind-IsSound (pass a) f h k = k a

require-IsSound :
    (b : Bool) (title message instructions : Str)
    → is_empty title ≡ false
    → is_empty message ≡ false
    → is_empty instructions ≡ false
    → IsSound (require b title message instructions)
require-IsSound true title message instructions t m i = record { at = tt }
require-IsSound false title message instructions t m i = record { at = (refl, t, m, i) }

if-IsSound : (b : Bool) (m : Check (Unit {0})) → IsSound m → IsSound (if b then pass tt else m)
if-IsSound true m h = record { at = tt }
if-IsSound false m h = h

scene_sizes-IsSound : (r : SceneReply) → IsSound (scene_sizes r)
unfolding scene_sizes codes
scene_sizes-IsSound timed_out = record { at = (refl, refl, refl, refl) }
scene_sizes-IsSound (threw what) = record { at = (refl, refl, refl, refl) }
scene_sizes-IsSound (replied n j) = record { at = tt }

ruleset sound_rules = (bind-IsSound, require-IsSound, if-IsSound, scene_sizes-IsSound, refl)

expected_joints-IsSound :
    (received expected : List Str) → IsSound (check_expected_joints received expected)
unfolding check_expected_joints codes
expected_joints-IsSound received [] = record { at = tt }
expected_joints-IsSound received (j ∷ js) =
    bind-IsSound (require _ _ _ _) _ (require-IsSound _ _ _ _ refl refl refl)
      (λ _. expected_joints-IsSound received js)

IsAllClear-or_IsExplained :
    (m : Check (Unit {0})) → IsSound m → IsAllClear (report_of m) ⊎ IsExplained (report_of m)
unfolding report_of
IsAllClear-or_IsExplained (stop r) h = inr h.at
IsAllClear-or_IsExplained (pass _) h = inl (refl, refl, refl, refl)

module _ {W : Type 0} ⦃d : Double W⦄ (c : Settings W) where
  move_group-IsSound : (s : Surroundings W) → IsSound (check_move_group c s)
  unfolding check_move_group codes
  move_group-IsSound s = search sound_rules

  joint_states-IsSound :
      (cache : JointCache) (s : Surroundings W) (n : ℕ) → IsSound (check_joint_states c cache s n)
  unfolding check_joint_states codes
  joint_states-IsSound cache s n = search (sound_rules, expected_joints-IsSound)

  transforms-IsSound : (s : Surroundings W) → IsSound (check_transforms c s)
  unfolding check_transforms codes
  transforms-IsSound s = search sound_rules

  checks-IsSound : (cache : JointCache) (s : Surroundings W) → IsSound (run_checks c cache s)
  unfolding run_checks codes
  checks-IsSound cache s =
      search (sound_rules, move_group-IsSound, joint_states-IsSound, transforms-IsSound) depth 9

  pub run_checks-stop :
      (cache : JointCache) (s : Surroundings W) {r : SubsystemHealthReport}
      → run_checks c cache s ≡ stop r
      → r.healthy ≡ false
  run_checks-stop cache s e = (rw e at (checks-IsSound cache s)).at.0

  -- A report is healthy with no text at all, or unhealthy with a title, a message and instructions.
  pub check_health-IsExplained :
      (cache : JointCache) (s : Surroundings W)
      → IsAllClear (check_health c cache s) ⊎ IsExplained (check_health c cache s)
  unfolding check_health
  check_health-IsExplained cache s = IsAllClear-or_IsExplained _ (checks-IsSound cache s)
