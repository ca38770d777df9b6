-- ===== src/GraspPlanning/BoxGrasps/Tests.antt =====
-- The stage on a box of 40 by 60 by 80 thousandths, with turns by quarters about the axes.
use intrinsic_moveit.GraspPlanning.Pipeline.{setup_of}
use intrinsic_moveit.GraspPlanning.BoxGrasps.Frames.{
  IsResolved, AllKnown, Call, run, compute_call, run-AllKnown, new_solution,
}
use intrinsic_moveit.GraspPlanning.Generator.{generator_of, queued}
use intrinsic_moveit.GraspPlanning.BoxGrasps.Drain.{IsQueue}
use intrinsic_moveit.Prelude.{
  decimal, ◌++◌, [], ◌∷◌, ℕ, ℤ, pos, Str, codes, str_eq, List, map, Option, none, some, true, ◌≡◌,
  refl, inl, All, subst,
}
use intrinsic_moveit.Double.{milli_double}
use intrinsic_moveit.Messages.{Vector3, PlanGraspsGoal}
use intrinsic_moveit.GraspPlanning.Pipeline.Task.{
  surfaces_to_use, valid_surfaces, all_if_empty, rotations_to_use,
}
use intrinsic_moveit.GraspPlanning.ObjectGeometry.{ObjectBoundingBox}
use intrinsic_moveit.GraspPlanning.BoxGrasps.Poses.{
  box_grasps, surface_loop, surface_grasps, frame_grasps, rotation_loop, grasp_at, surface_frame,
  active_surfaces, comment_of,
}
use intrinsic_moveit.GraspPlanning.BoxGrasps.{
  Scene, Upstream, Queue, Stage, Spawned, new_stage, compute, spawned_failure, compute_next,
  compute_for, compute_in, posture, spawned_grasp, set_object, set_pre_grasp_pose, set_surfaces,
  set_num_rotations, set_box_dimensions, set_center_transform, compute_for, compute_in, posture,
}
use intrinsic_moveit.GraspPlanning.BoxGrasps.Turns.{zero_vector, Isometry, turns}

abbrev dims : Vector3 ℤ
dims = record { x = pos 40; y = pos 60; z = pos 80 }

abbrev top_and_side : List ℤ
top_and_side = pos 4 ∷ pos 9 ∷ pos 1 ∷ []

abbrev center : Isometry
center = (zero_vector, λ v. v)

-- A queue that keeps its order.
abbrev fifo_pop : List (Upstream ℕ) → Option (Upstream ℕ × List (Upstream ℕ))
fifo_pop [] = none
fifo_pop (u ∷ us) = some (u, us)

abbrev fifo : Queue ℕ (List (Upstream ℕ))
fifo = record { new_queue = []; push = λ u q. q ++ (u ∷ []); pop = fifo_pop }

fifo_pop-cons :
    (q : List (Upstream ℕ)) (u : Upstream ℕ) (us : List (Upstream ℕ))
    → q ≡ u ∷ us
    → (rest : List (Upstream ℕ)) × (fifo_pop q ≡ some (u, rest)) × (rest ≡ us)
fifo_pop-cons q u us e = (us, rw e, refl)

fifo-IsQueue : IsQueue fifo (λ q. q)
fifo-IsQueue = record { new_empty = refl; pop-empty = λ q e. rw e; pop-cons = fifo_pop-cons }

abbrev scene : Scene ℕ
scene = record {
  knows_frame_transform = λ frame. str_eq frame (codes "block/whole");
  has_diff = true;
  end_effector = λ name. some name;
  current_state = 7;
}

abbrev solution : Upstream ℕ
solution = record { end_scene = some scene }

abbrev no_scene : Upstream ℕ
no_scene = record { end_scene = none }

abbrev set_to_default : ℕ → Str → Str → ℕ
set_to_default state group name = 8

abbrev goal : PlanGraspsGoal ℤ
goal = record {
  group_name = codes "ur_manipulator";
  end_effector_group = [];
  tool_frame = [];
  planning_timeout_sec = pos 15000;
  gripper_motion_duration_sec = pos 500;
  retract_dist_m = pos 50;
  surfaces = pos 4 ∷ pos 9 ∷ pos 1 ∷ [];
  num_rotations = pos 2;
  max_num_grasps = pos 3;
  candidates = [];
}

abbrev block_box : ObjectBoundingBox ℤ Isometry
block_box = record { dimensions = dims; center_transform = center }

abbrev comment : Spawned ℤ ℕ → Str
comment (spawned_failure message state) = message
comment (spawned_grasp g) = g.comment

-- The comments of what a call of compute spawns.
abbrev comments : Option (List (Spawned ℤ ℕ)) → List Str
comments none = []
comments (some spawned) = map comment spawned

abbrev stage : Stage ℤ Isometry (List (Upstream ℕ))
stage = record (new_stage turns fifo) {
  eef = some (codes "hand");
  object = some (codes "block");
  surfaces = pos 4 ∷ [];
}

abbrev calls : List (Call ℕ)
calls = compute_call ∷ new_solution solution ∷ new_solution no_scene ∷ compute_call ∷ []

scene_agrees :
    (s : Scene ℕ)
    → some scene ≡ some s
    → (frame : Str) → s.knows_frame_transform frame ≡ str_eq frame (codes "block/whole")
scene_agrees s e frame = subst (λ o. All_known o frame) e refl
  where
    All_known : Option (Scene ℕ) → Str → Type 0
    All_known none frame = Unit
    All_known (some t) frame = t.knows_frame_transform frame ≡ str_eq frame (codes "block/whole")

stage-IsResolved :
    IsResolved turns fifo set_to_default
      (λ q. q)
      fifo-IsQueue
      (λ frame. str_eq frame (codes "block/whole"))
      stage
unfolding new_stage
stage-IsResolved = record { resolved = inl refl }

run-AllKnown_example :
    All
      (AllKnown (λ frame. str_eq frame (codes "block/whole")))
      (run turns fifo set_to_default stage calls)
run-AllKnown_example =
    run-AllKnown turns fifo set_to_default (λ q. q) fifo-IsQueue
      (λ frame. str_eq frame (codes "block/whole")) calls stage
      (tt, (scene_agrees, ((λ s e. absurd (cc)), (tt, tt)))) stage-IsResolved

two_faces :
    comments
      (compute turns fifo set_to_default
        (queued turns fifo (setup_of goal (codes "block/whole") block_box) (solution ∷ []))).1
    ≡ codes "surface_4_rot_0"
      ∷ codes "surface_4_rot_1"
      ∷ codes "surface_1_rot_0"
      ∷ codes "surface_1_rot_1"
      ∷ []
unfolding compute compute_next compute_for compute_in posture box_grasps surface_loop surface_grasps
    frame_grasps rotation_loop grasp_at surface_frame active_surfaces comment_of decimal setup_of
    surfaces_to_use valid_surfaces all_if_empty rotations_to_use codes generator_of set_object
    set_pre_grasp_pose set_surfaces set_num_rotations set_box_dimensions set_center_transform
two_faces = refl
