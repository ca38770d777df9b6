-- ===== src/GraspSkill/Execute/World.antt =====
-- moveit_plan_grasp_skill/src/moveit_plan_grasp_skill/moveit_plan_grasp_skill.cpp:
-- GraspPlanningSkill::Execute, the update of the output frames in the object world.
use intrinsic_moveit.Prelude.{
  Str, codes, ◌++◌, Option, none, some, Bool, true, false, ◌||◌, if◌then◌else◌, StatusOr, ok, err,
  fail, Status, ok_status, failed, not_found, internal,
}
use intrinsic_moveit.Messages.{Pose}
use intrinsic_moveit.GraspSkill.Params.{
  ObjectReference, TransformNodeReference, GraspPlanningParams,
}
use intrinsic_moveit.GraspSkill.Execute.Results.{ObjectPlanningResult}

-- The world service: its state `S`, its transform nodes `N`, and the calls. `update_transform`
-- takes the nodes a, b and the node to move, and the transform from a to b.
pub record ObjectWorld (W S N : Type 0) : Type 0 where
  pub get_object : S → ObjectReference → StatusOr N
  pub get_transform_node : S → TransformNodeReference → StatusOr N
  pub update_transform : S → N → N → N → Pose W → S × Status

module _ {W S N : Type 0} (world : ObjectWorld W S N) where
  unfoldable pub updated : Str → S × Status → S × StatusOr (Unit {0})
  updated name (s, ok_status) = (s, ok tt)
  updated name (s, failed e) =
      (s, fail internal (codes "Failed to update " ++ name ++ codes " transform: " ++ e.message))

  unfoldable pub move_frame : S → N → StatusOr N → Pose W → Str → Str → S × StatusOr (Unit {0})
  unfolding updated
  move_frame s target (err e) pose frame name =
      (s, fail not_found (frame ++ codes " could not be resolved in World Service: " ++ e.message))
  move_frame s target (ok node) pose frame name =
      updated name (world.update_transform s target node node pose)

  -- The block for one output frame, if it is asked for.
  unfoldable pub update_output_frame :
      S → N → Option TransformNodeReference → Pose W → Str → Str → S × StatusOr (Unit {0})
  unfolding move_frame
  update_output_frame s target none pose frame name = (s, ok tt)
  update_output_frame s target (some ref) pose frame name =
      move_frame s target (world.get_transform_node s ref) pose frame name

  unfoldable pub is_set : Option TransformNodeReference → Bool
  is_set none = false
  is_set (some ref) = true

  -- The second block runs if the first did not return.
  unfoldable pub then_pregrasp :
      S × StatusOr (Unit {0}) → N → Option TransformNodeReference → Pose W → S × StatusOr (Unit {0})
  unfolding update_output_frame
  then_pregrasp (s, err e) target ref pose = (s, err e)
  then_pregrasp (s, ok u) target ref pose =
      update_output_frame s target ref pose (codes "Output pregrasp frame")
        (codes "output_pregrasp_frame")

  unfoldable pub update_frames_of :
      S → StatusOr N → GraspPlanningParams W → ObjectPlanningResult W → S × StatusOr (Unit {0})
  unfolding update_output_frame then_pregrasp
  update_frames_of s (err e) params selected = (
    s,
    fail not_found (codes "Candidate object could not be resolved in World Service: " ++ e.message),
  )
  update_frames_of s (ok target) params selected =
      then_pregrasp
        (update_output_frame s target params.output_grasp_frame selected.grasp.grasp_pose.pose
          (codes "Output grasp frame") (codes "output_grasp_frame"))
        target params.output_pregrasp_frame selected.pre_grasp_pose.pose

  unfoldable pub update_output_frames :
      S → GraspPlanningParams W → ObjectPlanningResult W → S × StatusOr (Unit {0})
  unfolding is_set update_frames_of
  update_output_frames s params selected =
      if is_set params.output_grasp_frame || is_set params.output_pregrasp_frame
      then update_frames_of s (world.get_object s selected.candidate_object) params selected
      else (s, ok tt)
