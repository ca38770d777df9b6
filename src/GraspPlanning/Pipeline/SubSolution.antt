-- ===== src/GraspPlanning/Pipeline/SubSolution.antt =====
-- moveit_planning_service/src/grasp_planning_pipeline.cpp: findSubSolution. A stage of the task is a
-- number; every solution has a creator, and a start `S`.
use intrinsic_moveit.Prelude.{
  ℕ, ◌==◌, List, [], ◌∷◌, ◌++◌, Option, none, some, Bool-cases, ◌≡◌, refl, inl, inr, if◌then◌else◌,
}

mutual
  -- mtc::SolutionBase with its derived classes.
  pub data SolutionBase (S : Type 0) : Type 0 where
    sub_trajectory : ℕ → S → SolutionBase S
    solution_sequence : ℕ → S → Solutions S → SolutionBase S
    wrapped_solution : ℕ → S → SolutionBase S → SolutionBase S

  pub data Solutions (S : Type 0) : Type 0 where
    no_solutions : Solutions S
    next_solution : SolutionBase S → Solutions S → Solutions S

-- The first match, or else the second.
abbrev pub or_else : {A : Type 0} → Option A → Option A → Option A
or_else none other = other
or_else (some a) other = some a

module _ {S : Type 0} where
  abbrev pub creator : SolutionBase S → ℕ
  creator (sub_trajectory stage start) = stage
  creator (solution_sequence stage start subs) = stage
  creator (wrapped_solution stage start inner) = stage

  abbrev pub start : SolutionBase S → S
  start (sub_trajectory stage s) = s
  start (solution_sequence stage s subs) = s
  start (wrapped_solution stage s inner) = s

  unfoldable mutual
    -- findSubSolution for a solution and a stage that are there.
    pub find_in : ℕ → SolutionBase S → Option (SolutionBase S)
    find_in target (sub_trajectory stage s) =
        if stage == target then some (sub_trajectory stage s) else none
    find_in target (solution_sequence stage s subs) =
        let match = find_in_all target subs in
        if stage == target then some (solution_sequence stage s subs) else match
    find_in target (wrapped_solution stage s inner) =
        let match = find_in target inner in
        if stage == target then some (wrapped_solution stage s inner) else match

    pub find_in_all : ℕ → Solutions S → Option (SolutionBase S)
    find_in_all target no_solutions = none
    find_in_all target (next_solution sub rest) =
        or_else (find_in target sub) (find_in_all target rest)

  unfoldable pub find_sub_solution : Option (SolutionBase S) → Option ℕ → Option (SolutionBase S)
  unfolding find_in
  find_sub_solution none target = none
  find_sub_solution (some s) none = none
  find_sub_solution (some s) (some target) = find_in target s

  -- Every solution of a tree, each before those that it is made of.
  unfoldable mutual
    pub nodes : SolutionBase S → List (SolutionBase S)
    nodes (sub_trajectory stage s) = sub_trajectory stage s ∷ []
    nodes (solution_sequence stage s subs) = solution_sequence stage s subs ∷ all_nodes subs
    nodes (wrapped_solution stage s inner) = wrapped_solution stage s inner ∷ nodes inner

    pub all_nodes : Solutions S → List (SolutionBase S)
    all_nodes no_solutions = []
    all_nodes (next_solution sub rest) = nodes sub ++ all_nodes rest

  -- The first of a list of solutions that a stage created.
  unfoldable pub first_by : ℕ → List (SolutionBase S) → Option (SolutionBase S)
  first_by target [] = none
  first_by target (s ∷ rest) = if creator s == target then some s else first_by target rest

  first_by-append :
      (target : ℕ) (xs ys : List (SolutionBase S))
      → first_by target (xs ++ ys) ≡ or_else (first_by target xs) (first_by target ys)
  unfolding first_by
  first_by-append target [] ys = refl
  first_by-append target (x ∷ xs) ys = elim (Bool-cases (creator x == target)) [
    | inl e ↦ rw e refl
    | inr e ↦ rw e (first_by-append target xs ys)
  ]

  mutual
    unfolding find_in nodes first_by

    find_in-first : (target : ℕ) (s : SolutionBase S) → find_in target s ≡ first_by target (nodes s)
    find_in-first target (sub_trajectory stage s) = refl
    find_in-first target (solution_sequence stage s subs) = rw (find_in_all-first target subs) refl
    find_in-first target (wrapped_solution stage s inner) = rw (find_in-first target inner) refl

    find_in_all-first :
        (target : ℕ) (subs : Solutions S)
        → find_in_all target subs ≡ first_by target (all_nodes subs)
    find_in_all-first target no_solutions = refl
    find_in_all-first target (next_solution sub rest) =
        rw
          (
            first_by-append target (nodes sub) (all_nodes rest),
            find_in-first target sub,
            find_in_all-first target rest,
          )
          refl

  -- The search through sequences and wrapped solutions finds the first solution by the stage among
  -- all the solutions that the tree holds at any depth, each taken before its parts, and nothing if
  -- no solution there is by the stage.
  pub find_sub_solution-first :
      (s : SolutionBase S) (target : ℕ)
      → find_sub_solution (some s) (some target) ≡ first_by target (nodes s)
  unfolding find_sub_solution
  find_sub_solution-first s target = find_in-first target s
