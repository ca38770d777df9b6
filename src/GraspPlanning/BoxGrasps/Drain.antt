-- ===== src/GraspPlanning/BoxGrasps/Drain.antt =====
-- The queue of GenerateBoxGraspPoses, emptied by repeated calls of compute.
use intrinsic_moveit.Prelude.{
  ◌∙◌, if◌then◌else◌, Bool-cases, ap, [], ◌∷◌, ℕ, zero, suc, Str, List, map, Option, none, some,
  Bool, true, false, ◌≡◌, refl, Option-cases, length, inl, inr, subst, sym,
}
use intrinsic_moveit.Double.{Double}
use intrinsic_moveit.GraspPlanning.Pipeline.Task.{rotations_to_use, valid_surfaces}
use intrinsic_moveit.GraspPlanning.BoxGrasps.Poses.{Rotations, BoxGrasp, active_surfaces}
use intrinsic_moveit.GraspPlanning.BoxGrasps.Comments.{pairs, read_comment, box_grasps-pairs}
use intrinsic_moveit.GraspPlanning.BoxGrasps.{
  Scene, Upstream, Queue, Stage, Spawned, spawned_failure, spawned_grasp, spawn_all, compute_in,
  compute_for, compute_next, compute,
}

-- What the stage relies on of the ordered queue: it starts empty, and `pop` takes the first
-- of its contents.
pub record IsQueue {C Q : Type 0} (queue : Queue C Q) (contents : Q → List (Upstream C))
    : Type 0 where
  pub new_empty : contents queue.new_queue ≡ []
  pub pop-empty : (q : Q) → contents q ≡ [] → queue.pop q ≡ none
  pub pop-cons :
      (q : Q) (u : Upstream C) (us : List (Upstream C))
      → contents q ≡ u ∷ us
      → (rest : Q) × (queue.pop q ≡ some (u, rest)) × (contents rest ≡ us)

-- The scene of a solution can be planned with.
abbrev pub is_usable : {C : Type 0} → Upstream C → Bool
is_usable u = elim u.end_scene [ none ↦ false | some scene ↦ scene.has_diff ]

-- The face and the rotation of what is spawned; `none` for a failure.
abbrev pub read_spawned : {W C : Type 0} → Spawned W C → Option (ℕ × ℕ)
read_spawned (spawned_failure message state) = none
read_spawned (spawned_grasp g) = some (read_comment g.comment)

abbrev pub batch : {A : Type 0} → Option (List A) → List A
batch none = []
batch (some xs) = xs

read_spawned-spawn_all :
    {W C : Type 0} (gs : List (BoxGrasp W C))
    → map read_spawned (spawn_all gs)
      ≡ map some (map (λ (g : BoxGrasp W C). read_comment g.comment) gs)
read_spawned-spawn_all [] = refl
read_spawned-spawn_all (g ∷ gs) = rw (read_spawned-spawn_all gs)

module _ {W I C R Q : Type 0} ⦃d : Double W⦄ (rotations : Rotations W I R) (queue : Queue C Q)
    (set_to_default_values : C → Str → Str → C) where
  -- The stage after some calls of compute, and what each of them spawned.
  pub computes : ℕ → Stage W I Q → Stage W I Q × List (List (Spawned W C))
  computes zero s = (s, [])
  computes (suc n) s =
      let (s', spawned) = compute rotations queue set_to_default_values s in
      let (end, more) = computes n s' in (end, batch spawned ∷ more)

  -- What is spawned for a solution: the grasps that are expected, by face and rotation, if the
  -- solution has a scene to plan with, and nothing otherwise.
  pub record IsBatch (expected : List (ℕ × ℕ)) (u : Upstream C) (spawned : List (Spawned W C))
      : Type 0 where
    pub served : map read_spawned spawned ≡ (if is_usable u then map some expected else [])

  abbrev pub Batches : List (ℕ × ℕ) → List (Upstream C) → List (List (Spawned W C)) → Type 0
  Batches expected [] [] = Unit
  Batches expected [] (b ∷ bs) = ⊥
  Batches expected (u ∷ us) [] = ⊥
  Batches expected (u ∷ us) (b ∷ bs) = IsBatch expected u b × Batches expected us bs

  -- Each face that is processed with each rotation.
  abbrev pub processed : Stage W I Q → List (ℕ × ℕ)
  processed s =
      pairs (valid_surfaces (active_surfaces s.surfaces)) (rotations_to_use s.num_rotations)

  compute_in-served :
      (s : Stage W I Q) (scene : Scene C) (eef object : Str)
      → s.eef ≡ some eef
      → s.object ≡ some object
      → scene.has_diff ≡ true
      → map read_spawned (batch (compute_in rotations queue set_to_default_values s scene))
        ≡ map some (processed s)
  unfolding compute_in
  compute_in-served s scene eef object e o h =
      rw (h, e, o) (rw (read_spawned-spawn_all, box_grasps-pairs))

  compute_in-skipped :
      (s : Stage W I Q) (scene : Scene C)
      → scene.has_diff ≡ false
      → batch (compute_in rotations queue set_to_default_values s scene) ≡ []
  unfolding compute_in
  compute_in-skipped s scene h = rw h

  compute_in_read :
      (s : Stage W I Q) (scene : Scene C) (eef object : Str)
      → s.eef ≡ some eef
      → s.object ≡ some object
      → map read_spawned (batch (compute_in rotations queue set_to_default_values s scene))
        ≡ (if scene.has_diff then map some (processed s) else [])
  compute_in_read s scene eef object e o = elim (Bool-cases scene.has_diff) [
    | inl h ↦ compute_in-served s scene eef object e o h ∙ rw h refl
    | inr h ↦ ap (map read_spawned) (compute_in-skipped s scene h) ∙ rw h refl
  ]

  module _ (contents : Q → List (Upstream C)) (law : IsQueue queue contents) where
    -- The call for the first solution of the queue.
    record Takes (s : Stage W I Q) (u : Upstream C) (us : List (Upstream C)) : Type 0 where
      rest : Q
      rest_contents : contents rest ≡ us
      next :
          (compute rotations queue set_to_default_values s).0
          ≡ record s { upstream_solutions = rest }
      spawns : IsBatch (processed s) u (batch (compute rotations queue set_to_default_values s).1)

    compute_for-IsBatch :
        (s : Stage W I Q) (u : Upstream C) (eef object : Str)
        → s.eef ≡ some eef
        → s.object ≡ some object
        → IsBatch
            (processed s)
            u
            (batch (compute_for rotations queue set_to_default_values s u.end_scene))
    unfolding compute_for
    compute_for-IsBatch s u eef object e o = elim (Option-cases u.end_scene) [
      | inl n ↦ record { served = rw n refl }
      | inr (scene, n) ↦ record { served = rw n (compute_in_read s scene eef object e o) }
    ]

    compute-Takes :
        (s : Stage W I Q) (u : Upstream C) (us : List (Upstream C)) (eef object : Str)
        → contents s.upstream_solutions ≡ u ∷ us
        → s.eef ≡ some eef
        → s.object ≡ some object
        → Takes s u us
    unfolding compute compute_next
    compute-Takes s u us eef object h e o =
        let (rest, popped, rest_contents) = law.pop-cons s.upstream_solutions u us h in
        record {
          rest = rest;
          rest_contents = rest_contents;
          next = rw popped;
          spawns = rw popped (compute_for-IsBatch s u eef object e o);
        }

    -- As many calls of compute as there are solutions empty the queue. They serve the solutions in
    -- order: each that has a scene to plan with gets one grasp for each face that is processed with
    -- each rotation, and each other one gets nothing.
    pub computes-Batches :
        (us : List (Upstream C)) (s : Stage W I Q) (eef object : Str)
        → contents s.upstream_solutions ≡ us
        → s.eef ≡ some eef
        → s.object ≡ some object
        → (contents (computes (length us) s).0.upstream_solutions ≡ [])
          × Batches (processed s) us (computes (length us) s).1
    unfolding computes
    computes-Batches [] s eef object h e o = (h, tt)
    computes-Batches (u ∷ us) s eef object h e o =
        let t = compute-Takes s u us eef object h e o in
        let later =
          computes-Batches us (record s { upstream_solutions = t.rest }) eef object t.rest_contents
            e o in
        let (emptied, served) =
          subst
            (λ (s' : Stage W I Q).
              (contents (computes (length us) s').0.upstream_solutions ≡ [])
              × Batches (processed s) us (computes (length us) s').1)
            (sym t.next) later in
        (emptied, (t.spawns, served))
