-- ===== src/GraspPlanning/Pipeline/Setup.antt =====
-- What the setup of the task guarantees to MoveIt Task Constructor, whatever the request says.
use mathlib.Core.List.{Memᴰ}
use intrinsic_moveit.Prelude.{
  ℕ, zero, suc, ◌≤◌, ℤ, pos, negsuc, Str, codes, leb, List, [], ◌∷◌, All, true, Bool-cases, ◌≡◌,
  ◌≢◌, arith, inl, inr, text_or_default-ne,
}
use intrinsic_moveit.Double.{Double}
use intrinsic_moveit.Messages.{PlanGraspsGoal}
use intrinsic_moveit.PlanningNode.Action.{max_grasps}
use intrinsic_moveit.GraspPlanning.ObjectGeometry.{ObjectBoundingBox}
use intrinsic_moveit.GraspPlanning.Pipeline.Task.{
  TaskSetup, valid_surfaces, all_if_empty, surfaces_to_use, rotations_to_use,
}
use intrinsic_moveit.GraspPlanning.Pipeline.{setup_of}

All_surfaces : (surfaces : List ℤ) → All (λ (n : ℕ). n ≤ 5) (valid_surfaces surfaces)
unfolding valid_surfaces
All_surfaces [] = tt
All_surfaces (pos n ∷ rest) = elim (Bool-cases (leb n 5)) [
  | inl e ↦ rw e (ground arith, All_surfaces rest)
  | inr e ↦ rw e (All_surfaces rest)
]
All_surfaces (negsuc n ∷ rest) = All_surfaces rest

All-all_if_empty :
    (ns : List ℕ) → All (λ (n : ℕ). n ≤ 5) ns → All (λ (n : ℕ). n ≤ 5) (all_if_empty ns)
unfolding all_if_empty
All-all_if_empty [] h =
    (omega arith, (omega arith, (omega arith, (omega arith, (omega arith, (omega arith, tt))))))
All-all_if_empty (n ∷ ns) h = h

all_if_empty-ne : (ns : List ℕ) → all_if_empty ns ≢ []
unfolding all_if_empty
all_if_empty-ne [] e = absurd (cc)
all_if_empty-ne (n ∷ ns) e = absurd (cc)

Memᴰ-all_if_empty : (n : ℕ) (ns : List ℕ) → Memᴰ n ns → Memᴰ n (all_if_empty ns)
unfolding all_if_empty
Memᴰ-all_if_empty n [] m = elim m [ ]
Memᴰ-all_if_empty n (k ∷ ns) m = m

Memᴰ-valid_surfaces :
    (n : ℕ) (surfaces : List ℤ) → n ≤ 5 → Memᴰ (pos n) surfaces → Memᴰ n (valid_surfaces surfaces)
unfolding valid_surfaces
Memᴰ-valid_surfaces n [] h m = elim m [ ]
Memᴰ-valid_surfaces n (pos k ∷ rest) h (Memᴰ.head q) =
    let r : n ≡ k = ground arith in let e : leb k 5 ≡ true = ground arith in rw e (Memᴰ.head r)
Memᴰ-valid_surfaces n (negsuc k ∷ rest) h (Memᴰ.head q) = absurd (ground arith)
Memᴰ-valid_surfaces n (pos k ∷ rest) h (Memᴰ.tail m) = elim (Bool-cases (leb k 5)) [
  | inl e ↦ rw e (Memᴰ.tail (Memᴰ-valid_surfaces n rest h m))
  | inr e ↦ rw e (Memᴰ-valid_surfaces n rest h m)
]
Memᴰ-valid_surfaces n (negsuc k ∷ rest) h (Memᴰ.tail m) = Memᴰ-valid_surfaces n rest h m

rotations_to_use-pos : (z : ℤ) → 1 ≤ rotations_to_use z
unfolding rotations_to_use
rotations_to_use-pos (pos zero) = omega arith
rotations_to_use-pos (pos (suc n)) = omega arith
rotations_to_use-pos (negsuc n) = omega arith

pub max_grasps-pos : (z : ℤ) → 1 ≤ max_grasps z
unfolding max_grasps
max_grasps-pos (pos zero) = omega arith
max_grasps-pos (pos (suc n)) = omega arith
max_grasps-pos (negsuc n) = omega arith

module _ {W I : Type 0} ⦃d : Double W⦄ (goal : PlanGraspsGoal W) where
  -- There are surfaces of the box, all of them numbers up to 5, with each such surface of the goal
  -- among them; there is a rotation and a grasp to look for; and the gripper has a name.
  pub record IsUsable (setup : TaskSetup W I) : Type 0 where
    pub some_surface : setup.surfaces ≢ []
    pub all_surfaces : All (λ (n : ℕ). n ≤ 5) setup.surfaces
    pub asked_surfaces : (n : ℕ) → n ≤ 5 → Memᴰ (pos n) goal.surfaces → Memᴰ n setup.surfaces
    pub some_rotation : 1 ≤ setup.num_rotations
    pub some_grasp : 1 ≤ setup.max_num_grasps
    pub named_eef : setup.eef ≢ []
    pub named_frame : setup.ik_frame ≢ []

  -- Whatever a goal leaves out or gets wrong, the task is set up with surfaces of the box from 0 to 5,
  -- every such surface that the goal asks for among them, at least one rotation, at least one grasp
  -- to find, and a named end effector and IK frame.
  pub setup_of-IsUsable :
      (target : Str) (bounding_box : ObjectBoundingBox W I)
      → IsUsable (setup_of goal target bounding_box)
  unfolding setup_of surfaces_to_use codes
  setup_of-IsUsable target bounding_box = record {
    some_surface = all_if_empty-ne (valid_surfaces goal.surfaces);
    all_surfaces = All-all_if_empty (valid_surfaces goal.surfaces) (All_surfaces goal.surfaces);
    asked_surfaces = λ n h m.
        Memᴰ-all_if_empty n (valid_surfaces goal.surfaces)
          (Memᴰ-valid_surfaces n goal.surfaces h m);
    some_rotation = rotations_to_use-pos goal.num_rotations;
    some_grasp = max_grasps-pos goal.max_num_grasps;
    named_eef = text_or_default-ne goal.end_effector_group (codes "hand") (λ e. absurd (cc));
    named_frame = text_or_default-ne goal.tool_frame (codes "hande_tcp") (λ e. absurd (cc));
  }
