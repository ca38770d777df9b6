-- ===== src/SceneSync/Wait/Laws.antt =====
-- No name that is asked for is lost, and none waits while the sync thread does.
use intrinsic_moveit.Prelude.{ℕ, ℤ, Str, List, [], ◌∷◌, ◌++◌, Option, some, Bool, true, ◌≡◌}
use intrinsic_moveit.Double.{Double, Cmath}
use intrinsic_moveit.SceneSync.World.{WorldClient, ShapeMesh}
use intrinsic_moveit.SceneSync.Data.{Config, Data, initial}
use intrinsic_moveit.SceneSync.Tracking.{appended}
use intrinsic_moveit.SceneSync.Run.{Call, run}
use intrinsic_moveit.SceneSync.Wait.{wait_over, all_requested, all_taken}
use intrinsic_moveit.SceneSync.Invariant.{or_none}

-- The pending names and the flag after a request.
abbrev asked : Option (List Str) × Bool → List Str → Option (List Str) × Bool
asked p [] = p
asked p (name ∷ names) = (some (appended p.0 (name ∷ names)), true)

-- If names wait, the thread is to wake up.
abbrev IsAwake : Option (List Str) × Bool → Type 0
IsAwake p = (names : List Str) → p.0 ≡ some names → p.1 ≡ true

module _ {W : Type 0} ⦃d : Double W⦄ ⦃m : Cmath W⦄ (world : WorldClient W)
    (create_mesh : List ℕ → Option (ShapeMesh W)) (seconds : ℤ → W) (config : Config W) where
  -- Every name asked for was taken or waits, in the order asked, and if any wait, the thread does not.
  pub record IsServed (calls : List (Call W)) : Type 0 where
    pub conserved :
        all_requested world create_mesh seconds config initial calls
        ≡ all_taken world create_mesh seconds config initial calls
          ++ or_none (run world create_mesh seconds config initial calls).sync_object_names
    pub awake :
        (names : List Str) (timed_out : Bool)
        → (run world create_mesh seconds config initial calls).sync_object_names ≡ some names
        → wait_over config timed_out (run world create_mesh seconds config initial calls) ≡ true
