-- ===== src/GraspSkill/Execute/Response.antt =====
-- moveit_plan_grasp_skill/src/moveit_plan_grasp_skill/moveit_plan_grasp_skill.cpp:
-- GraspPlanningSkill::Execute, the grasps of the response.
use intrinsic_moveit.Prelude.{
  Str, codes, is_empty, List, [], ◌∷◌, ◌++◌, Option, none, some, Bool, true, false, ◌&&◌, not,
  if◌then◌else◌,
}
use intrinsic_moveit.Messages.{Grasp}
use intrinsic_moveit.GraspSkill.Params.{
  ObjectReference, TransformNodeReference, GraspPlanningParams, PoseBasedGrasp,
}
use intrinsic_moveit.GraspSkill.Execute.Results.{ObjectPlanningResult}

-- The name of the candidate object, or else its id.
unfoldable pub object_name : ObjectReference → Str
object_name object = elim object.by_name [ none ↦ object.id | some name ↦ name ]

module _ {W : Type 0} where
  -- The name the frames of a grasp hang on: the object's, or else the frame of the grasp.
  unfoldable pub target_name : ObjectReference → Grasp W → Str
  unfolding object_name
  target_name object grasp =
      if is_empty (object_name object) then grasp.grasp_pose.frame_id else object_name object

  unfoldable pub named_object : ObjectReference → Grasp W → ObjectReference
  unfolding object_name
  named_object object grasp =
      if is_empty (object_name object) && not (is_empty grasp.grasp_pose.frame_id)
      then record object { by_name = some grasp.grasp_pose.frame_id }
      else object

object_frame_of : Str → Option TransformNodeReference
object_frame_of name =
    if is_empty name
    then none
    else some (record { id = []; by_name = some (record { frame = none; object = some name }) })

frame_of : Str → Str → Option TransformNodeReference
frame_of name frame =
    if is_empty name
    then none
    else some (record {
      id = [];
      by_name = some (record {
        frame = some (record { object_name = name; frame_name = frame });
        object = none;
      });
    })

-- The output frame for the first grasp, or else a frame of the object.
grasp_frame_of : Bool → Option TransformNodeReference → Str → Str → Option TransformNodeReference
unfolding frame_of
grasp_frame_of true (some output) name frame = some output
grasp_frame_of true none name frame = frame_of name frame
grasp_frame_of false output name frame = frame_of name frame

module _ {W : Type 0} (params : GraspPlanningParams W) where
  unfoldable pub pose_grasp : Bool → ObjectPlanningResult W → PoseBasedGrasp W
  unfolding target_name named_object object_frame_of grasp_frame_of
  pose_grasp first result =
      let name = target_name result.candidate_object result.grasp in
      record {
        grasp_id = result.grasp.id;
        object = named_object result.candidate_object result.grasp;
        object_frame = object_frame_of name;
        grasp_frame = grasp_frame_of first params.output_grasp_frame name result.grasp.id;
        pre_grasp_frame =
            grasp_frame_of first params.output_pregrasp_frame name
              (result.grasp.id ++ codes "_pregrasp");
        pregrasp_ik_solution = result.pregrasp_ik_solution.position;
        grasp_ik_solution = result.grasp_ik_solution.position;
      }

  unfoldable pub pose_grasps : Bool → List (ObjectPlanningResult W) → List (PoseBasedGrasp W)
  pose_grasps first [] = []
  pose_grasps first (result ∷ rest) = pose_grasp first result ∷ pose_grasps false rest
