-- ===== src/GraspSkill/Goal/Laws.antt =====
-- What the planning node gets from the skill, whatever the parameters are.
use intrinsic_moveit.Prelude.{
  ℕ, zero, ℤ, pos, suc, Str, codes, All, List, [], ◌∷◌, map, Option, none, some, Bool, true, ◌≡◌,
  ◌≢◌, ◌↔◌, refl, arith, ltb_ℤ, ◌⊎◌, inl, inr,
}
use intrinsic_moveit.Double.{Double, is_pos}
use intrinsic_moveit.Messages.{PlanGraspsGoal}
use intrinsic_moveit.GraspSkill.Params.{ObjectReference, GraspPlanningParams}
use intrinsic_moveit.GraspSkill.Goal.{
  text_or, count_or, positive_or, finite_positive_or, target_id_of, candidate_of,
  create_plan_grasps_goal, negsuc,
}
use intrinsic_moveit.PlanningNode.Requests.{handle_plan_grasps_goal, accept_and_execute}
use intrinsic_moveit.PlanningNode.Requests.Laws.{AllNamed, goal-accepted}

-- The object has an id, or else a name.
abbrev pub IsNamed : ObjectReference → Type 0
IsNamed object = (object.id ≢ []) ⊎ ((n : ℕ) × (s : Str) × (object.by_name ≡ some (n ∷ s)))

text_or-ne-nil : (o : Option Str) (n : ℕ) (s : Str) → text_or o (n ∷ s) ≢ []
text_or-ne-nil none n s = ground arith
text_or-ne-nil (some []) n s = ground arith
text_or-ne-nil (some (x ∷ t)) n s = ground arith

count_or-pos : (o : Option ℤ) → ltb_ℤ (pos 0) (count_or o (pos 1)) ≡ true
count_or-pos none = refl
count_or-pos (some (pos zero)) = refl
count_or-pos (some (pos (suc n))) = ground arith
count_or-pos (some (negsuc n)) = refl

IsNamed-iff :
    (i : Str) (o : Option Str)
    → (target_id_of (record { id = i; by_name = o }) ≢ [])
      ↔ IsNamed (record { id = i; by_name = o })
unfolding target_id_of
IsNamed-iff (n ∷ s) o = (λ h. inl h, λ h. ground arith)
IsNamed-iff [] none = (λ h. absurd (h refl), λ h. ground arith)
IsNamed-iff [] (some []) = (λ h. absurd (h refl), λ h. ground arith)
IsNamed-iff [] (some (n ∷ s)) = (λ h. inr (n, s, refl), λ h. ground arith)

target_id_of-IsNamed : (object : ObjectReference) → (target_id_of object ≢ []) ↔ IsNamed object
target_id_of-IsNamed object = IsNamed-iff object.id object.by_name

map-ne-nil : {A B : Type 0} (f : A → B) (xs : List A) → (map f xs ≢ []) ↔ (xs ≢ [])
map-ne-nil f [] = (λ h. absurd (h refl), λ h. absurd (h refl))
map-ne-nil f (x ∷ xs) = (λ h. ground arith, λ h. ground arith)

-- The defaults are above zero, and the default timeout is finite.
pub record DefaultsPositive (W : Type 0) ⦃d : Double W⦄ : Type 0 where
  pub timeout_pos : is_pos {W = W} (d.ratio 15000 1) ≡ true
  pub timeout_finite : d.is_finite (d.ratio 15000 1) ≡ true
  pub motion_pos : is_pos {W = W} (d.ratio 5 10) ≡ true
  pub retract_pos : is_pos {W = W} (d.ratio 5 100) ≡ true

module _ {W : Type 0} ⦃d : Double W⦄ where
  positive_or-pos : (o : Option W) (x : W) → is_pos x ≡ true → is_pos (positive_or o x) ≡ true
  positive_or-pos none x h = h
  positive_or-pos (some y) x h = ground arith

  finite_positive_or-pos :
      (o : Option W) (x : W)
      → d.is_finite x ≡ true
      → is_pos x ≡ true
      → (d.is_finite (finite_positive_or o x) ≡ true) × (is_pos (finite_positive_or o x) ≡ true)
  finite_positive_or-pos none x f h = (f, h)
  finite_positive_or-pos (some y) x f h = (ground arith, ground arith)

  pub record IsUsable (goal : PlanGraspsGoal W) : Type 0 where
    pub group_named : goal.group_name ≢ []
    pub effector_named : goal.end_effector_group ≢ []
    pub timeout_ms : W
    pub timeout_is : goal.planning_timeout_sec ≡ d.div timeout_ms (d.ratio 1000 1)
    pub timeout_finite : d.is_finite timeout_ms ≡ true
    pub timeout_pos : is_pos timeout_ms ≡ true
    pub motion_pos : is_pos goal.gripper_motion_duration_sec ≡ true
    pub retract_pos : is_pos goal.retract_dist_m ≡ true
    pub count_pos : ltb_ℤ (pos 0) goal.max_num_grasps ≡ true

  -- Whatever the parameters are, the goal names a planning group and an end effector group, its
  -- timeout is a finite positive number of milliseconds turned to seconds, and its motion duration,
  -- retract distance and maximal number of grasps are positive, if the default values are.
  pub create_plan_grasps_goal-IsUsable :
      DefaultsPositive W
      → (params : GraspPlanningParams W) → IsUsable (create_plan_grasps_goal params)
  unfolding create_plan_grasps_goal codes
  create_plan_grasps_goal-IsUsable h params = record {
    group_named = text_or-ne-nil params.group_name _ _;
    effector_named = text_or-ne-nil params.end_effector_group _ _;
    timeout_ms = finite_positive_or params.timeout_ms (d.ratio 15000 1);
    timeout_is = refl;
    timeout_finite = (finite_positive_or-pos params.timeout_ms _ h.timeout_finite h.timeout_pos).0;
    timeout_pos = (finite_positive_or-pos params.timeout_ms _ h.timeout_finite h.timeout_pos).1;
    motion_pos = positive_or-pos params.gripper_motion_duration_sec _ h.motion_pos;
    retract_pos = positive_or-pos params.retract_dist_m _ h.retract_pos;
    count_pos = count_or-pos params.max_num_grasps;
  }

  candidates-IsNamed :
      (params : GraspPlanningParams W) (objects : List ObjectReference)
      → AllNamed (map (candidate_of params) objects) ↔ All IsNamed objects
  unfolding candidate_of
  candidates-IsNamed params [] = (λ h. h, λ h. h)
  candidates-IsNamed params (o ∷ os) = (
    λ h. ((target_id_of-IsNamed o).0 h.0, (candidates-IsNamed params os).0 h.1),
    λ h. ((target_id_of-IsNamed o).1 h.0, (candidates-IsNamed params os).1 h.1),
  )

  -- The planning node accepts the skill's goal exactly when its scene is ready, there is a candidate
  -- object, and each candidate object has an id or a name.
  pub create_plan_grasps_goal-accepted :
      (scene_ready : Bool) (params : GraspPlanningParams W)
      → (handle_plan_grasps_goal scene_ready (create_plan_grasps_goal params) ≡ accept_and_execute)
        ↔ ((scene_ready ≡ true)
            × (params.candidate_objects ≢ [])
            × All IsNamed params.candidate_objects)
  unfolding create_plan_grasps_goal
  create_plan_grasps_goal-accepted scene_ready params =
      let (to, from) = goal-accepted scene_ready (create_plan_grasps_goal params) in
      let objects = params.candidate_objects in
      let named = candidates-IsNamed params objects in
      let nonempty = map-ne-nil (candidate_of params) objects in
      (
        λ h. (let (r, c, a) = to h in (r, nonempty.0 c, named.0 a)),
        λ h. from (h.0, nonempty.1 h.1, named.1 h.2),
      )
