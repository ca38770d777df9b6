-- ===== src/GraspPlanning/BoxGrasps/Frames.antt =====
-- The frames of the generated grasps: known to the scenes that they are generated for.
use intrinsic_moveit.Prelude.{
  [], ◌∷◌, ℕ, zero, suc, ◌+◌, ℤ, pos, negsuc, Str, codes, List, ◌++◌, Option, none, some,
  Option-cases, Bool, true, Bool-cases, All, All-append, ◌≡◌, ◌⊎◌, refl, sym, ◌∙◌, inl, inr,
}
use intrinsic_moveit.Double.{Double}
use intrinsic_moveit.Messages.{Vector3}
use intrinsic_moveit.GraspPlanning.Pipeline.Task.{rotations_to_use}
use intrinsic_moveit.GraspPlanning.BoxGrasps.Poses.{
  Rotations, BoxGrasp, active_surfaces, grasp_at, rotation_loop, surface_frame, frame_grasps,
  surface_grasps, surface_loop, box_grasps,
}
use intrinsic_moveit.GraspPlanning.BoxGrasps.Drain.{IsQueue}
use intrinsic_moveit.GraspPlanning.BoxGrasps.{
  Scene, Upstream, Queue, Stage, Spawned, spawned_failure, spawned_grasp, spawn_all, resolve_in,
  on_new_solution, compute_in, compute_for, compute_next, compute,
}

module _ {W I R C : Type 0} ⦃d : Double W⦄ (rotations : Rotations W I R) (surfaces : List ℤ)
    (num_rotations : ℤ) (dims : Vector3 W) (center : I) (object_frame : Str)
    (pregrasp grasp : Option Str) (state : C) where
  abbrev InFrame : BoxGrasp W C → Type 0
  InFrame g = g.target_pose.frame_id ≡ object_frame

  rotation_loop-InFrame :
      (surface : ℕ) (frame : Vector3 W × R) (i rounds : ℕ)
      → All InFrame (
          rotation_loop rotations surfaces num_rotations dims center object_frame pregrasp grasp
            state surface frame i rounds)
  unfolding rotation_loop grasp_at
  rotation_loop-InFrame surface (t, r) i zero = tt
  rotation_loop-InFrame surface (t, r) i (suc rounds) =
      (refl, rotation_loop-InFrame surface (t, r) (i + 1) rounds)

  frame_grasps-InFrame :
      (surface : ℕ) (o : Option (Vector3 W × R))
      → All InFrame (
          frame_grasps rotations surfaces num_rotations dims center object_frame pregrasp grasp
            state surface o)
  unfolding frame_grasps
  frame_grasps-InFrame surface none = tt
  frame_grasps-InFrame surface (some frame) =
      rotation_loop-InFrame surface frame 0 (rotations_to_use num_rotations)

  surface_loop-InFrame :
      (ss : List ℤ)
      → All InFrame (
          surface_loop rotations surfaces num_rotations dims center object_frame pregrasp grasp
            state ss)
  unfolding surface_loop surface_grasps
  surface_loop-InFrame [] = tt
  surface_loop-InFrame (negsuc n ∷ ss) = surface_loop-InFrame ss
  surface_loop-InFrame (pos n ∷ ss) =
      All-append InFrame _ _ (frame_grasps-InFrame n (surface_frame rotations dims n))
        (surface_loop-InFrame ss)

  pub box_grasps-InFrame :
      All InFrame
        (box_grasps rotations surfaces num_rotations dims center object_frame pregrasp grasp state)
  unfolding box_grasps
  box_grasps-InFrame = surface_loop-InFrame (active_surfaces surfaces)

-- The calls of the stage in an order that MoveIt Task Constructor chooses.
pub data Call (C : Type 0) : Type 0 where
  new_solution : Upstream C → Call C
  compute_call : Call C

-- Every scene knows the same frames.
abbrev pub Agrees : {C : Type 0} → (Str → Bool) → Call C → Type 0
Agrees {C} known (new_solution u) =
    (scene : Scene C)
    → u.end_scene ≡ some scene
    → (frame : Str) → scene.knows_frame_transform frame ≡ known frame
Agrees known compute_call = Unit

-- A grasp stands in a frame that is known.
abbrev pub IsKnown : {W C : Type 0} → (Str → Bool) → Spawned W C → Type 0
IsKnown known (spawned_failure message state) = Unit
IsKnown known (spawned_grasp g) = known g.target_pose.frame_id ≡ true

abbrev pub AllKnown : {W C : Type 0} → (Str → Bool) → Option (List (Spawned W C)) → Type 0
AllKnown known none = Unit
AllKnown known (some spawned) = All (IsKnown known) spawned

spawn_all-IsKnown :
    {W C : Type 0} (known : Str → Bool) (object : Str) (gs : List (BoxGrasp W C))
    → known object ≡ true
    → All (λ (g : BoxGrasp W C). g.target_pose.frame_id ≡ object) gs
    → All (IsKnown known) (spawn_all gs)
spawn_all-IsKnown known object [] k h = tt
spawn_all-IsKnown known object (g ∷ gs) k h = (rw h.0 k, spawn_all-IsKnown known object gs k h.1)

module _ {W I C R Q : Type 0} ⦃d : Double W⦄ (rotations : Rotations W I R) (queue : Queue C Q)
    (set_to_default_values : C → Str → Str → C) where
  unfoldable pub step : Stage W I Q → Call C → Stage W I Q × Option (List (Spawned W C))
  step s (new_solution u) = on_new_solution rotations queue s u
  step s compute_call = compute rotations queue set_to_default_values s

  -- The answers to the calls, one by one.
  unfoldable pub run : Stage W I Q → List (Call C) → List (Option (List (Spawned W C)))
  run s [] = []
  run s (c ∷ cs) = let (s', spawned) = step s c in spawned ∷ run s' cs

  module _ (contents : Q → List (Upstream C)) (law : IsQueue queue contents)
      (known : Str → Bool) where
    -- Nothing waits, or the object is a frame that is known.
    pub record IsResolved (s : Stage W I Q) : Type 0 where
      pub resolved :
          (contents s.upstream_solutions ≡ [])
          ⊎ ((object : Str) × (s.object ≡ some object) × (known object ≡ true))

    on_new_solution-IsResolved :
        (s : Stage W I Q) (u : Upstream C)
        → Agrees known (new_solution u)
        → IsResolved s
        → IsResolved (on_new_solution rotations queue s u).0
          × AllKnown known (on_new_solution rotations queue s u).1
    unfolding on_new_solution resolve_in
    on_new_solution-IsResolved s u agrees h = elim (Option-cases u.end_scene) [
      | inl n ↦ rw n (h, tt)
      | inr (scene, n) ↦ elim (Option-cases s.object) [
        | inl o ↦ rw (n, o) (rw o at h, tt)
        | inr (object, o) ↦ elim (Bool-cases (scene.knows_frame_transform object)) [
          | inl k ↦
              rw (n, o, k)
                (record { resolved = inr (object, refl, sym (agrees scene n object) ∙ k) }, tt)
          | inr k ↦ elim (Bool-cases (scene.knows_frame_transform (object ++ codes "/whole"))) [
            | inl l ↦
                rw (n, o, k, l)
                  (
                    record {
                      resolved = inr (object ++ codes "/whole", refl, sym (agrees scene n _) ∙ l);
                    },
                    tt,
                  )
            | inr l ↦ rw (n, o, k, l) (rw o at h, (tt, tt))
          ]
        ]
      ]
    ]

    compute_in-AllKnown :
        (s : Stage W I Q) (scene : Scene C) (object : Str)
        → s.object ≡ some object
        → known object ≡ true
        → AllKnown known (compute_in rotations queue set_to_default_values s scene)
    unfolding compute_in
    compute_in-AllKnown s scene object o k = elim (Bool-cases scene.has_diff) [
      | inr h ↦ rw h tt
      | inl h ↦ elim (Option-cases s.eef) [
        | inl e ↦ rw (h, e) tt
        | inr (eef, e) ↦
            rw (h, e, o)
              (spawn_all-IsKnown known object _ k
                (box_grasps-InFrame rotations _ _ _ _ object _ _ _))
      ]
    ]

    compute_for-AllKnown :
        (s : Stage W I Q) (o : Option (Scene C)) (object : Str)
        → s.object ≡ some object
        → known object ≡ true
        → AllKnown known (compute_for rotations queue set_to_default_values s o)
    unfolding compute_for
    compute_for-AllKnown s none object o k = tt
    compute_for-AllKnown s (some scene) object o k = compute_in-AllKnown s scene object o k

    compute-IsResolved :
        (s : Stage W I Q)
        → IsResolved s
        → IsResolved (compute rotations queue set_to_default_values s).0
          × AllKnown known (compute rotations queue set_to_default_values s).1
    unfolding compute compute_next
    compute-IsResolved s h = elim (h.resolved) [
      | inl e ↦ rw (law.pop-empty s.upstream_solutions e) (h, tt)
      | inr (object, o, k) ↦ elim (Option-cases (queue.pop s.upstream_solutions)) [
        | inl p ↦ rw p (h, tt)
        | inr ((u, rest), p) ↦ rw p (
          record { resolved = inr (object, o, k) },
          compute_for-AllKnown s u.end_scene object o k,
        )
      ]
    ]

    -- Where all scenes know the same frames, every grasp that a run of the stage generates stands in
    -- a frame that they know: with new solutions and calls of compute in any order, from a stage
    -- with nothing in its queue or with an object that is known.
    pub run-AllKnown :
        (calls : List (Call C)) (s : Stage W I Q)
        → All (Agrees known) calls
        → IsResolved s
        → All (AllKnown known) (run s calls)
    unfolding run step
    run-AllKnown [] s agrees h = tt
    run-AllKnown (new_solution u ∷ calls) s agrees h =
        let (kept, spawned) = on_new_solution-IsResolved s u agrees.0 h in
        (spawned, run-AllKnown calls _ agrees.1 kept)
    run-AllKnown (compute_call ∷ calls) s agrees h =
        let (kept, spawned) = compute-IsResolved s h in
        (spawned, run-AllKnown calls _ agrees.1 kept)
