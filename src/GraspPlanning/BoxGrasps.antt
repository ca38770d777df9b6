-- ===== src/GraspPlanning/BoxGrasps.antt =====
-- moveit_planning_service/src/generate_box_grasp_poses.cpp: GenerateBoxGraspPoses, the stage of the
-- task that generates grasp poses on the faces of a box. `Q` is MoveIt Task Constructor's ordered
-- queue of the solutions before the stage, `C` a robot state.
pub mod Poses
pub mod Faces
pub mod Comments
pub mod Drain
pub mod Frames
mod Turns
mod Tests
use intrinsic_moveit.Prelude.{
  ℕ, ℤ, Str, codes, List, [], ◌∷◌, ◌++◌, Option, none, some, Bool, true, false, not, is_empty,
  if◌then◌else◌, pos,
}
use intrinsic_moveit.Double.{Double}
use intrinsic_moveit.Messages.{Vector3}
use intrinsic_moveit.GraspPlanning.BoxGrasps.Poses.{Rotations, BoxGrasp, box_grasps}

-- planning_scene::PlanningScene
pub record Scene (C : Type 0) : Type 0 where
  pub knows_frame_transform : Str → Bool
  -- diff() gives a scene, and it has a robot model
  pub has_diff : Bool
  -- the joint model group of an end effector
  pub end_effector : Str → Option Str
  pub current_state : C

-- A solution before the stage: the scene at its end, if there are an end and a scene.
pub record Upstream (C : Type 0) : Type 0 where
  pub end_scene : Option (Scene C)

-- ordered<const SolutionBase*>
pub record Queue (C Q : Type 0) : Type 0 where
  pub new_queue : Q
  pub push : Upstream C → Q → Q
  pub pop : Q → Option (Upstream C × Q)

-- The properties that are strings, and the fields. `none` is a property that has no value.
pub record Stage (W I Q : Type 0) : Type 0 where
  pub eef : Option Str
  pub object : Option Str
  pub pregrasp : Option Str
  pub grasp : Option Str
  pub surfaces : List ℤ
  pub num_rotations : ℤ
  pub dims : Vector3 W
  pub obj_t_obj_center : I
  pub upstream_solutions : Q

module _ {W I Q : Type 0} where
  unfoldable pub set_object : Str → Stage W I Q → Stage W I Q
  set_object object s = record s { object = some object }

  unfoldable pub set_end_effector : Str → Stage W I Q → Stage W I Q
  set_end_effector eef s = record s { eef = some eef }

  unfoldable pub set_pre_grasp_pose : Str → Stage W I Q → Stage W I Q
  set_pre_grasp_pose pregrasp s = record s { pregrasp = some pregrasp }

  unfoldable pub set_grasp_pose : Str → Stage W I Q → Stage W I Q
  set_grasp_pose grasp s = record s { grasp = some grasp }

  unfoldable pub set_end_effector_pose : Str → Stage W I Q → Stage W I Q
  set_end_effector_pose pose s = set_grasp_pose pose (set_pre_grasp_pose pose s)

  unfoldable pub set_surfaces : List ℤ → Stage W I Q → Stage W I Q
  set_surfaces surfaces s = record s { surfaces = surfaces }

  unfoldable pub set_num_rotations : ℤ → Stage W I Q → Stage W I Q
  set_num_rotations num_rotations s = record s { num_rotations = num_rotations }

  unfoldable pub set_box_dimensions : Vector3 W → Stage W I Q → Stage W I Q
  set_box_dimensions dims s = record s { dims = dims }

  unfoldable pub set_center_transform : I → Stage W I Q → Stage W I Q
  set_center_transform center s = record s { obj_t_obj_center = center }

-- The end of init: an exception for a property without a value, the errors, or neither.
pub data Init : Type 0 where
  no_value : Init
  init_errors : List Str → Init
  initialized : Init

-- `base_errors` are those of GeneratePose::init.
unfoldable pub init : {W I Q : Type 0} → (Str → Bool) → List Str → Stage W I Q → Init
init has_end_effector base_errors s = elim s.object [
  | none ↦ no_value
  | some object ↦ elim s.eef [
    | none ↦ no_value
    | some eef ↦
        if not (has_end_effector eef)
        then init_errors (base_errors ++ ((codes "unknown end effector: " ++ eef) ∷ []))
        else if not (is_empty base_errors)
        then init_errors base_errors
        else initialized
  ]
]

-- What the stage spawns: a failure with its message, or a grasp.
pub data Spawned (W C : Type 0) : Type 0 where
  spawned_failure : Str → C → Spawned W C
  spawned_grasp : BoxGrasp W C → Spawned W C

abbrev spawn_all : {W C : Type 0} → List (BoxGrasp W C) → List (Spawned W C)
spawn_all [] = []
spawn_all (g ∷ gs) = spawned_grasp g ∷ spawn_all gs

module _ {W I C R Q : Type 0} ⦃d : Double W⦄ (rotations : Rotations W I R) (queue : Queue C Q) where
  -- The stage as the constructor leaves it.
  unfoldable pub new_stage : Stage W I Q
  new_stage = record {
    eef = none;
    object = none;
    pregrasp = none;
    grasp = none;
    surfaces = [];
    num_rotations = pos 4;
    dims = record { x = d.ratio 5 100; y = d.ratio 5 100; z = d.ratio 5 100 };
    obj_t_obj_center = rotations.transforms.isometries.identity;
    upstream_solutions = queue.new_queue;
  }

  resolve_in : Stage W I Q → Upstream C → Scene C → Str → Stage W I Q × Option (List (Spawned W C))
  resolve_in s solution scene object =
      let push = queue.push solution s.upstream_solutions in
      if scene.knows_frame_transform object
      then (record s { upstream_solutions = push }, some [])
      else if scene.knows_frame_transform (object ++ codes "/whole")
      then (
        record s { object = some (object ++ codes "/whole"); upstream_solutions = push },
        some [],
      )
      else (
        s,
        some (
            spawned_failure (codes "object '" ++ (object ++ codes "' not in scene"))
              scene.current_state
            ∷ []),
      )

  -- The stage after the call, and what it spawned: `none` is an exception, for a property without a
  -- value.
  unfoldable pub on_new_solution :
      Stage W I Q → Upstream C → Stage W I Q × Option (List (Spawned W C))
  unfolding resolve_in
  on_new_solution s solution = elim solution.end_scene [
    | none ↦ (s, some [])
    | some scene ↦ elim s.object [
      | none ↦ (s, none)
      | some object ↦ resolve_in s solution scene object
    ]
  ]

  module _ (set_to_default_values : C → Str → Str → C) where
    -- The robot state of the spawned grasps: in the pre-grasp posture, if there are one and a group.
    posture : Stage W I Q → Scene C → Str → C
    posture s scene eef = elim s.pregrasp [
      | none ↦ scene.current_state
      | some pregrasp ↦ elim (scene.end_effector eef) [
        | none ↦ scene.current_state
        | some group ↦ set_to_default_values scene.current_state group pregrasp
      ]
    ]

    compute_in : Stage W I Q → Scene C → Option (List (Spawned W C))
    unfolding posture
    compute_in s scene = if not scene.has_diff then some [] else elim s.eef [
      | none ↦ none
      | some eef ↦ elim s.object [
        | none ↦ none
        | some object ↦ some (
            spawn_all (
              box_grasps rotations s.surfaces s.num_rotations s.dims s.obj_t_obj_center object
                s.pregrasp s.grasp (posture s scene eef)))
      ]
    ]

    compute_for : Stage W I Q → Option (Scene C) → Option (List (Spawned W C))
    unfolding compute_in
    compute_for s none = some []
    compute_for s (some scene) = compute_in s scene

    compute_next : Stage W I Q → Option (Upstream C × Q) → Stage W I Q × Option (List (Spawned W C))
    unfolding compute_for
    compute_next s none = (s, some [])
    compute_next s (some (solution, rest)) =
        (record s { upstream_solutions = rest }, compute_for s solution.end_scene)

    unfoldable pub compute : Stage W I Q → Stage W I Q × Option (List (Spawned W C))
    unfolding compute_next
    compute s = compute_next s (queue.pop s.upstream_solutions)
