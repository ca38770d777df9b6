-- ===== src/GraspPlanning/Pipeline/ModelCache.antt =====
-- moveit_planning_service/src/grasp_planning_pipeline.cpp: the constructor and GetRobotModel, which
-- load the robot model once it is asked for and keep it. A load is a robot_model_loader that is made
-- for the parameter robot_description; the calls come one after the other.
use intrinsic_moveit.Prelude.{
  ℕ, zero, suc, ◌+◌, Option, none, some, Bool, true, false, ◌&&◌, not, is_some, ◌≡◌, refl,
  if◌then◌else◌, Option-cases, inr, ◌∙◌, inl, sym, ap,
}
use intrinsic_moveit.GraspPlanning.Pipeline.SubSolution.{or_else}

-- What a load gives: an exception, or what getModel returns.
pub data Loaded (M : Type 0) : Type 0 where
  load_threw : Loaded M
  loaded : Option M → Loaded M

pub record GraspPlanningPipeline (M : Type 0) : Type 0 where
  pub has_node : Bool
  pub robot_model : Option M
  -- The loads so far.
  pub loads : ℕ

module _ {M : Type 0} where
  -- The try block: an exception leaves the model as it is.
  unfoldable pub keep : Loaded M → GraspPlanningPipeline M → GraspPlanningPipeline M
  keep load_threw p = record p { loads = p.loads + 1 }
  keep (loaded model) p = record p { robot_model = model; loads = p.loads + 1 }

  -- The model that a load gives, if it gives one.
  abbrev pub model_of : Loaded M → Option M
  model_of load_threw = none
  model_of (loaded model) = model

  keep-robot_model :
      (l : Loaded M) (p : GraspPlanningPipeline M)
      → p.robot_model ≡ none
      → (keep l p).robot_model ≡ model_of l
  unfolding keep
  keep-robot_model load_threw p h = h
  keep-robot_model (loaded model) p h = refl

  keep-loads : (l : Loaded M) (p : GraspPlanningPipeline M) → (keep l p).loads ≡ p.loads + 1
  unfolding keep
  keep-loads load_threw p = refl
  keep-loads (loaded model) p = refl

  keep-has_node : (l : Loaded M) (p : GraspPlanningPipeline M) → (keep l p).has_node ≡ p.has_node
  unfolding keep
  keep-has_node load_threw p = refl
  keep-has_node (loaded model) p = refl

module _ {M : Type 0} (loader : ℕ → Loaded M) where
  unfoldable pub load_model : GraspPlanningPipeline M → GraspPlanningPipeline M
  unfolding keep
  load_model p = keep (loader p.loads) p

  -- With a model if one is given; `declared` is has_parameter.
  unfoldable pub new_pipeline : Bool → Option M → Bool → GraspPlanningPipeline M
  unfolding load_model
  new_pipeline has_node given declared =
      let p : GraspPlanningPipeline M = record {
        has_node = has_node;
        robot_model = given;
        loads = 0;
      } in
      let with_load = load_model p in
      if not (is_some given) && (has_node && declared) then with_load else p

  unfoldable pub get_robot_model : GraspPlanningPipeline M → Option M × GraspPlanningPipeline M
  unfolding load_model
  get_robot_model p =
      let q =
        (let with_load = load_model p in
          if not (is_some p.robot_model) && p.has_node then with_load else p) in
      (q.robot_model, q)

  -- The pipeline after a number of calls.
  abbrev pub after_calls : ℕ → GraspPlanningPipeline M → GraspPlanningPipeline M
  after_calls zero p = p
  after_calls (suc n) p = after_calls n (get_robot_model p).1

  -- The first model among `n` loads from the i-th on.
  abbrev pub first_model : ℕ → ℕ → Option M
  first_model i zero = none
  first_model i (suc n) = or_else (model_of (loader i)) (first_model (i + 1) n)

  get_robot_model-some :
      (p : GraspPlanningPipeline M) (model : M)
      → p.robot_model ≡ some model
      → (get_robot_model p).1 ≡ p
  unfolding get_robot_model
  get_robot_model-some p model h =
      ap (λ o. if not (is_some o) && p.has_node then load_model p else p) h

  get_robot_model-none :
      (p : GraspPlanningPipeline M)
      → p.has_node ≡ true
      → p.robot_model ≡ none
      → (get_robot_model p).1 ≡ keep (loader p.loads) p
  unfolding get_robot_model load_model
  get_robot_model-none p node h =
      ap (λ o. if not (is_some o) && p.has_node then load_model p else p) h
      ∙ ap (λ c. if c then load_model p else p) node

  after_calls-some :
      (n : ℕ) (p : GraspPlanningPipeline M) (model : M)
      → p.robot_model ≡ some model
      → (after_calls n p).robot_model ≡ some model
  after_calls-some zero p model h = h
  after_calls-some (suc n) p model h =
      rw (after_calls, get_robot_model-some p model h) (after_calls-some n p model h)

  after_calls-none :
      (n : ℕ) (p : GraspPlanningPipeline M)
      → p.has_node ≡ true
      → p.robot_model ≡ none
      → (after_calls n p).robot_model ≡ first_model p.loads n
  after_calls-none zero p node h = h
  after_calls-none (suc n) p node h =
      let l = loader p.loads in
      let q = keep-robot_model l p h in
      rw (after_calls, get_robot_model-none p node h)
        (elim (Option-cases (model_of l)) [
          | inr (model, e) ↦ rw e (after_calls-some n (keep l p) model (q ∙ e))
          | inl e ↦
              rw (e, sym (keep-loads l p))
                (after_calls-none n (keep l p) (keep-has_node l p ∙ node) (q ∙ e))
        ])

  last_call :
      (n : ℕ) (p : GraspPlanningPipeline M)
      → (get_robot_model (after_calls n p)).0 ≡ (after_calls (suc n) p).robot_model
  unfolding get_robot_model
  last_call zero p = refl
  last_call (suc n) p = last_call n (get_robot_model p).1

  -- A pipeline with a node starts with the model that it is given, or with a first load if the
  -- parameter is declared. However often the model is asked for after that, the answer is the given
  -- model, or else the first model among the loads up to that call, one for each call: once there is
  -- a model it stays, and until then each call loads again.
  pub get_robot_model-first :
      (given : Option M) (declared : Bool) (n : ℕ)
      → (get_robot_model (after_calls n (new_pipeline true given declared))).0
        ≡ or_else given (first_model 0 (if declared then suc (suc n) else suc n))
  unfolding new_pipeline load_model get_robot_model
  get_robot_model-first (some model) declared n =
      let p = new_pipeline true (some model) declared in
      last_call n p ∙ after_calls-some (suc n) p model refl
  get_robot_model-first none false n =
      let p = new_pipeline true none false in last_call n p ∙ after_calls-none (suc n) p refl refl
  get_robot_model-first none true n =
      let p : GraspPlanningPipeline M = record { has_node = true; robot_model = none; loads = 0 } in
      last_call (suc n) p ∙ after_calls-none (suc (suc n)) p refl refl
