-- ===== src/PlanningNode/Action/Outcome.antt =====
-- How a grasp planning action ends, against a description that does not follow the loop.
use mathlib.Core.List.{append-nil, append_assoc}
use native.Mathlib.Nat.{zero-add}
use intrinsic_moveit.Prelude.{
  ℤ, pos, negsuc, zero, subst, ℕ, ◌+◌, List, [], ◌∷◌, ◌++◌, Option, none, some, Option-cases, Bool,
  true, false, Bool-cases, length, take, ◌≡◌, ◌≢◌, refl, sym, ap, ◌∙◌, inl, inr, arith, subst,
}
use intrinsic_moveit.Double.{Double}
use intrinsic_moveit.Messages.{
  GraspCandidate, PlanGraspsGoal, RankedGrasp, success, failure, planning_failed, preempted,
}
use intrinsic_moveit.PlanningNode.Action.Sort.{sort_by_quality, is_empty-sort}
use intrinsic_moveit.PlanningNode.Action.{
  Pipeline, u32, plan_grasps_for_candidate, succeeded, aborted, canceled, Progress, ActionRun,
  LoopEnd, loop_canceled, loop_failed, loop_done, max_grasps, plan_candidates, end_action,
  execute_plan_grasps_action, suc, finish, is_empty,
}

-- The completed counts that the feedback reports for candidates planned from `index` on.
abbrev pub counts : {A : Type 0} → ℕ → List A → List ℕ
counts index [] = []
counts index (c ∷ cs) = u32 (index + 1) ∷ counts (index + 1) cs

-- Planning that fails yields no grasps.
abbrev pub or_empty : {A : Type 0} → Option (List A) → List A
or_empty none = []
or_empty (some xs) = xs

module _ {W : Type 0} (pipeline : Pipeline W) (goal : PlanGraspsGoal W) where
  -- The grasps of all candidates, in the order of the goal.
  abbrev pub all_grasps : ℕ → List (GraspCandidate W) → List (RankedGrasp W)
  all_grasps index [] = []
  all_grasps index (c ∷ cs) =
      or_empty (plan_grasps_for_candidate pipeline goal c (u32 index)) ++ all_grasps (index + 1) cs

  module _ (canceling : ℕ → Bool) where
    -- Each candidate was planned with success, and no cancellation was seen before it.
    abbrev pub AllPlanned : ℕ → List (GraspCandidate W) → Type 0
    AllPlanned index [] = Unit
    AllPlanned index (c ∷ cs) =
        ((canceling index ≡ false) × (plan_grasps_for_candidate pipeline goal c (u32 index) ≢ none))
        × AllPlanned (index + 1) cs

    -- Why the loop ended before the candidates `rest`, the first of which is number `n`.
    abbrev pub StopsAt : LoopEnd → ℕ → List (GraspCandidate W) → Type 0
    StopsAt loop_done n [] = Unit
    StopsAt loop_done n (c ∷ rest) = ⊥
    StopsAt loop_failed n [] = ⊥
    StopsAt loop_failed n (c ∷ rest) =
        (canceling n ≡ false) × (plan_grasps_for_candidate pipeline goal c (u32 n) ≡ none)
    StopsAt loop_canceled n [] = ⊥
    StopsAt loop_canceled n (c ∷ rest) = canceling n ≡ true

    record LoopSpec (index : ℕ) (cs : List (GraspCandidate W)) (p : Progress W) (q : Progress W)
        (e : LoopEnd) : Type 0 where
      before : List (GraspCandidate W)
      rest : List (GraspCandidate W)
      split : before ++ rest ≡ cs
      planned : AllPlanned index before
      collected : q.grasps ≡ p.grasps ++ all_grasps index before
      reported : q.feedback ≡ p.feedback ++ counts index before
      number : ℕ
      counted : number ≡ index + length before
      stops : StopsAt e number rest

    stop_here :
        (e : LoopEnd) (index : ℕ) (cs : List (GraspCandidate W)) (p : Progress W)
        → StopsAt e index cs
        → LoopSpec index cs p p e
    stop_here e index cs p h = record {
      before = [];
      rest = cs;
      split = refl;
      planned = tt;
      collected = sym (append-nil _);
      reported = sym (append-nil _);
      number = index;
      counted = omega arith;
      stops = h;
    }

    go_on :
        (index : ℕ) (c : GraspCandidate W) (cs : List (GraspCandidate W)) (p q : Progress W)
        (e : LoopEnd) (grasps : List (RankedGrasp W))
        → canceling index ≡ false
        → plan_grasps_for_candidate pipeline goal c (u32 index) ≡ some grasps
        → LoopSpec
            (index + 1)
            cs
            (record {
              grasps = p.grasps ++ grasps;
              feedback = p.feedback ++ (u32 (index + 1) ∷ []);
            })
            q
            e
        → LoopSpec index (c ∷ cs) p q e
    go_on index c cs p q e grasps live found s = record {
      before = c ∷ s.before;
      rest = s.rest;
      split = ap (◌∷◌ c) s.split;
      planned = ((live, ground arith), s.planned);
      collected = rw found (s.collected ∙ append_assoc p.grasps grasps _);
      reported = s.reported ∙ append_assoc p.feedback (u32 (index + 1) ∷ []) _;
      number = s.number;
      counted = omega (arith, s.counted);
      stops = s.stops;
    }

    plan_candidates_lem :
        (index : ℕ) (cs : List (GraspCandidate W)) (p : Progress W)
        → let r = plan_candidates pipeline canceling goal index cs p in LoopSpec index cs p r.0 r.1
    unfolding plan_candidates
    plan_candidates_lem index [] p = stop_here loop_done index [] p tt
    plan_candidates_lem index (c ∷ cs) p = elim (Bool-cases (canceling index)) [
      | inl e ↦ rw e (stop_here loop_canceled index (c ∷ cs) p e)
      | inr e ↦ elim (Option-cases (plan_grasps_for_candidate pipeline goal c (u32 index))) [
        | inl k ↦ rw (e, k) (stop_here loop_failed index (c ∷ cs) p (e, k))
        | inr (grasps, k) ↦
            rw (e, k) (go_on index c cs p _ _ grasps e k (plan_candidates_lem (index + 1) cs _))
      ]
    ]

    -- The four ways in which an action ends, once the candidates `before` are planned.
    pub data Ending ⦃d : Double W⦄ (run : ActionRun W) (before rest : List (GraspCandidate W))
        : Type 0 where
      was_canceled :
          StopsAt loop_canceled (length before) rest
          → run.terminal ≡ canceled
          → run.result ≡ record { ranked_grasps = all_grasps 0 before; error_code = preempted }
          → Ending run before rest
      candidate_failed :
          StopsAt loop_failed (length before) rest
          → run.terminal ≡ aborted
          → run.result ≡ record { ranked_grasps = all_grasps 0 before; error_code = failure }
          → Ending run before rest
      nothing_found :
          rest ≡ []
          → all_grasps 0 before ≡ []
          → run.terminal ≡ aborted
          → run.result ≡ record { ranked_grasps = []; error_code = planning_failed }
          → Ending run before rest
      found :
          rest ≡ []
          → all_grasps 0 before ≢ []
          → run.terminal ≡ succeeded
          → run.result ≡ record {
            ranked_grasps =
                take (max_grasps goal.max_num_grasps) (sort_by_quality (all_grasps 0 before));
            error_code = success;
          }
          → Ending run before rest

    pub record Outcome ⦃d : Double W⦄ (run : ActionRun W) : Type 0 where
      pub before : List (GraspCandidate W)
      pub rest : List (GraspCandidate W)
      pub split : before ++ rest ≡ goal.candidates
      pub planned : AllPlanned 0 before
      pub reported : run.feedback ≡ counts 0 before
      pub ending : Ending run before rest

    module _ ⦃d : Double W⦄ where
      abbrev run_of : Progress W → LoopEnd → ℕ → ActionRun W
      run_of p e total = record {
        terminal = (end_action goal p e).1;
        result = (end_action goal p e).0;
        total_candidates = total;
        feedback = p.feedback;
      }

      take-nil : (n : ℕ) → take {A = RankedGrasp W} n [] ≡ []
      take-nil zero = refl
      take-nil (suc n) = refl

      finish-nil :
          finish goal [] ≡ (record { ranked_grasps = []; error_code = planning_failed }, aborted)
      unfolding finish sort_by_quality
      finish-nil = rw (take-nil (max_grasps goal.max_num_grasps)) refl

      is_empty-take_max :
          (z : ℤ) (xs : List (RankedGrasp W))
          → is_empty xs ≡ false
          → is_empty (take (max_grasps z) xs) ≡ false
      unfolding max_grasps
      is_empty-take_max z [] h = absurd (ground arith)
      is_empty-take_max (pos zero) (x ∷ xs) h = refl
      is_empty-take_max (pos (suc n)) (x ∷ xs) h = refl
      is_empty-take_max (negsuc n) (x ∷ xs) h = refl

      finish-cons :
          (xs : List (RankedGrasp W))
          → is_empty xs ≡ false
          → finish goal xs ≡ (
            record {
              ranked_grasps = take (max_grasps goal.max_num_grasps) (sort_by_quality xs);
              error_code = success;
            },
            succeeded,
          )
      unfolding finish
      finish-cons xs h =
          rw (is_empty-take_max goal.max_num_grasps (sort_by_quality xs) (is_empty-sort xs ∙ h))
            refl

      done-Ending :
          (xs : List (RankedGrasp W)) (before : List (GraspCandidate W)) (p : Progress W)
          (total : ℕ)
          → xs ≡ all_grasps 0 before
          → p.grasps ≡ xs
          → Ending (run_of p loop_done total) before []
      unfolding end_action
      done-Ending [] before p total e k =
          nothing_found refl (sym e) (ap (λ r. r.1) (ap (finish goal) k ∙ finish-nil))
            (ap (λ r. r.0) (ap (finish goal) k ∙ finish-nil))
      done-Ending (x ∷ xs) before p total e k =
          found refl (ground arith)
            (ap (λ r. r.1)
              (ap (finish goal) (k ∙ e) ∙ finish-cons (all_grasps 0 before) (ground arith)))
            (ap (λ r. r.0)
              (ap (finish goal) (k ∙ e) ∙ finish-cons (all_grasps 0 before) (ground arith)))

      Ending-of :
          (e : LoopEnd) (before rest : List (GraspCandidate W)) (p : Progress W) (total : ℕ)
          → StopsAt e (length before) rest
          → p.grasps ≡ all_grasps 0 before
          → Ending (run_of p e total) before rest
      unfolding end_action
      Ending-of loop_canceled before rest p total h k = was_canceled h refl (rw k refl)
      Ending-of loop_failed before rest p total h k = candidate_failed h refl (rw k refl)
      Ending-of loop_done before [] p total h k = done-Ending _ before p total refl k
      Ending-of loop_done before (c ∷ rest) p total h k = elim h [ ]

      pub execute-Outcome : Outcome (execute_plan_grasps_action pipeline canceling goal)
      unfolding execute_plan_grasps_action
      execute-Outcome = record {
        before = s.before;
        rest = s.rest;
        split = s.split;
        planned = s.planned;
        reported = s.reported;
        ending =
            Ending-of last.1 s.before s.rest last.0 (u32 (length goal.candidates))
              (subst (λ n. StopsAt last.1 n s.rest) (s.counted ∙ zero-add _) s.stops) s.collected;
      }
        where
          start : Progress W
          start = record { grasps = []; feedback = [] }

          last : Progress W × LoopEnd
          last = plan_candidates pipeline canceling goal 0 goal.candidates start

          s : LoopSpec 0 goal.candidates start last.0 last.1
          s = plan_candidates_lem 0 goal.candidates start
