-- ===== src/GraspPlanning/Pipeline/Stops.antt =====
-- An attempt never stops with SUCCESS, and what holds of the value that it reaches: rules for the
-- steps of PlanGrasps.
use intrinsic_moveit.Prelude.{
  none, some, Option, List, [], ◌∷◌, Bool, true, false, ◌≡◌, refl, sym, subst, arith, false≢true,
  if◌then◌else◌,
}
use intrinsic_moveit.Messages.{MoveItErrorCode, success, failure, planning_failed, RankedGrasp}
use intrinsic_moveit.GraspPlanning.Pipeline.Task.{TaskAnswer, task_threw, planned}
use intrinsic_moveit.GraspPlanning.Pipeline.{
  Attempt, stopped, reached, or_stop, solutions_of, result_of, require, ◌>>=◌, ◌>>◌,
}

unfoldable pub is_success : MoveItErrorCode → Bool
is_success code = elim code [ success ↦ true | _ ↦ false ]

-- The attempt never stops with SUCCESS.
pub record Stops {A : Type 0} (m : Attempt A) : Type 0 where
  pub code_of : (c : MoveItErrorCode) → m ≡ stopped c → is_success c ≡ false

-- What holds of the value that an attempt reaches, if it does not stop.
pub record Ensures {A : Type 0} (P : A → Type 0) (m : Attempt A) : Type 0 where
  pub holds : (a : A) → m ≡ reached a → P a
  pub stops : Stops m

pub Ensures-bind :
    {A B : Type 0} (P : B → Type 0) (m : Attempt A) (f : A → Attempt B)
    → Stops m
    → ((a : A) → m ≡ reached a → Ensures P (f a))
    → Ensures P (m >>= f)
Ensures-bind P (stopped c) f s h = record {
  holds = λ b e. absurd (cc);
  stops = record {
    code_of = λ x e.
        (let q : c ≡ x = ground arith in subst (λ y. is_success y ≡ false) q (s.code_of c refl));
  };
}
Ensures-bind P (reached a) f s h = h a refl

pub Ensures-reached : {A : Type 0} (P : A → Type 0) (a : A) → P a → Ensures P (reached a)
Ensures-reached P a p = record {
  holds = λ b e. (let q : a ≡ b = ground arith in subst P q p);
  stops = record { code_of = λ c e. absurd (cc) };
}

pub Stops-stopped :
    {A : Type 0} (code : MoveItErrorCode) → is_success code ≡ false → Stops {A = A} (stopped code)
Stops-stopped code h = record {
  code_of = λ c e. (let q : code ≡ c = ground arith in subst (λ y. is_success y ≡ false) q h);
}

pub Stops-reached : {A : Type 0} (a : A) → Stops (reached a)
Stops-reached a = record { code_of = λ c e. absurd (cc) }

pub Ensures-last :
    {A : Type 0} (P : A → Type 0) (c : Bool) (code : MoveItErrorCode) (a : A)
    → is_success code ≡ false
    → (c ≡ true → P a)
    → Ensures P (require c code >> reached a)
Ensures-last P true code a k h = Ensures-reached P a (h refl)
Ensures-last P false code a k h = record {
  holds = λ b e. absurd (cc);
  stops = Stops-stopped code k;
}

pub Stops-require :
    (c : Bool) (code : MoveItErrorCode) → is_success code ≡ false → Stops (require c code)
Stops-require true code h = Stops-reached tt
Stops-require false code h = Stops-stopped code h

pub Stops-or_stop :
    {A : Type 0} (o : Option A) (code : MoveItErrorCode)
    → is_success code ≡ false
    → Stops (or_stop o code)
Stops-or_stop none code h = Stops-stopped code h
Stops-or_stop (some a) code h = Stops-reached a

pub or_stop-some :
    {A : Type 0} (o : Option A) (code : MoveItErrorCode) (a : A)
    → or_stop o code ≡ reached a
    → o ≡ some a
or_stop-some none code a e = absurd (cc)
or_stop-some (some b) code a e = ground arith

pub Stops-bind :
    {A B : Type 0} (m : Attempt A) (f : A → Attempt B)
    → Stops m
    → ((a : A) → Stops (f a))
    → Stops (m >>= f)
Stops-bind (stopped c) f s h = Stops-stopped c (s.code_of c refl)
Stops-bind (reached a) f s h = h a

pub Stops-if :
    {A : Type 0} (c : Bool) (m n : Attempt A) → Stops m → Stops n → Stops (if c then m else n)
Stops-if true m n h k = h
Stops-if false m n h k = k

pub solutions_of-Stops : {W I : Type 0} (a : TaskAnswer W I) → Stops (solutions_of a)
unfolding solutions_of is_success
solutions_of-Stops task_threw = Stops-stopped failure refl
solutions_of-Stops (planned success []) = Stops-stopped planning_failed refl
solutions_of-Stops (planned success (x ∷ xs)) = Stops-reached (x ∷ xs)
solutions_of-Stops (planned _ xs) = Stops-stopped planning_failed refl

pub result_of-holds :
    {W : Type 0} (P : List (RankedGrasp W) → Type 0) (m : Attempt (List (RankedGrasp W)))
    → Ensures P m
    → (result_of m).error_code ≡ success
    → P (result_of m).ranked_grasps
unfolding result_of is_success
result_of-holds P (stopped c) e h =
    absurd (false≢true (sym (subst (λ y. is_success y ≡ false) h (e.stops.code_of c refl))))
result_of-holds P (reached a) e h = e.holds a refl

-- What holds of the list that an attempt reaches, and of no grasps, holds of the result.
pub result_of-always :
    {W : Type 0} (P : List (RankedGrasp W) → Type 0) (m : Attempt (List (RankedGrasp W)))
    → Ensures P m
    → P []
    → P (result_of m).ranked_grasps
unfolding result_of
result_of-always P (stopped c) e h = h
result_of-always P (reached a) e h = e.holds a refl

pub ruleset stop_rules = (
  Ensures-bind, Ensures-last, Stops-require, Stops-or_stop, Stops-bind, Stops-if, Stops-reached,
  refl,
)
