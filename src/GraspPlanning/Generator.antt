-- ===== src/GraspPlanning/Generator.antt =====
-- moveit_planning_service/src/grasp_planning_pipeline.cpp: the generator of box grasp poses as
-- PlanGrasps configures it in the task, and what it then generates for a goal.
use mathlib.Core.List.{map}
use intrinsic_moveit.Prelude.{[], ◌≤◌, pos, Str, codes, length, List, some, ◌≡◌}
use intrinsic_moveit.Double.{Double}
use intrinsic_moveit.GraspPlanning.Pipeline.Task.{TaskSetup}
use intrinsic_moveit.GraspPlanning.BoxGrasps.Poses.{Rotations}
use intrinsic_moveit.GraspPlanning.BoxGrasps.Comments.{pairs}
use intrinsic_moveit.GraspPlanning.BoxGrasps.Drain.{IsQueue, Batches, computes}
use intrinsic_moveit.GraspPlanning.BoxGrasps.{
  Upstream, Queue, Stage, new_stage, set_object, set_pre_grasp_pose, set_surfaces,
  set_num_rotations, set_box_dimensions, set_center_transform,
}

module _ {W I C R Q : Type 0} ⦃d : Double W⦄ (rotations : Rotations W I R) (queue : Queue C Q) where
  -- The end effector comes from the task.
  unfoldable pub generator_of : TaskSetup W I → Stage W I Q
  generator_of setup =
      let inherited = record (new_stage rotations queue) { eef = some setup.eef } in
      let named = set_pre_grasp_pose (codes "open") (set_object setup.target_id inherited) in
      let turned =
        set_num_rotations (pos setup.num_rotations) (set_surfaces (map pos setup.surfaces) named) in
      set_center_transform setup.obj_t_obj_center (set_box_dimensions setup.box_dims turned)

  -- The stage of a generator after solutions came to its queue.
  abbrev pub queued : TaskSetup W I → Q → Stage W I Q
  queued setup q = record (generator_of setup) { upstream_solutions = q }

module _ {W I C R Q : Type 0} ⦃d : Double W⦄ (rotations : Rotations W I R) (queue : Queue C Q)
    (set_to_default_values : C → Str → Str → C) (contents : Q → List (Upstream C))
    (law : IsQueue queue contents) where
  -- The generator empties its queue, gives each usable solution in it the faces and rotations of the
  -- setup, and there are some.
  pub record IsServing (setup : TaskSetup W I) (q : Q) : Type 0 where
    pub emptied :
        contents
          (computes rotations queue set_to_default_values
            (length (contents q))
            (queued rotations queue setup q)).0.upstream_solutions
        ≡ []
    pub served :
        Batches rotations queue set_to_default_values
          (pairs setup.surfaces setup.num_rotations)
          (contents q)
          (computes rotations queue set_to_default_values
            (length (contents q))
            (queued rotations queue setup q)).1
    pub some_pair : 1 ≤ length (pairs setup.surfaces setup.num_rotations)
