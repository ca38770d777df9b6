-- ===== src/GraspSkill/Execute/Frames.antt =====
-- What happens to the object world when the output frames are updated.
use intrinsic_moveit.Prelude.{
  Str, Option, none, some, ◌≡◌, refl, arith, StatusOr, ok, err, Status, ok_status, failed, inl, inr,
  StatusOr-cases, ◌⊎◌, Option-cases,
}
use intrinsic_moveit.Messages.{Pose}
use intrinsic_moveit.GraspSkill.Params.{TransformNodeReference, GraspPlanningParams}
use intrinsic_moveit.GraspSkill.Execute.Results.{ObjectPlanningResult}
use intrinsic_moveit.GraspSkill.Execute.World.{
  ObjectWorld, is_set, updated, move_frame, update_output_frame, then_pregrasp, update_frames_of,
  update_output_frames,
}

module _ {W S N : Type 0} (world : ObjectWorld W S N) where
  -- What the world does for one output frame: nothing if it is not asked for, and otherwise the
  -- node of the frame is put at the pose relative to the target.
  abbrev pub Moves : S → N → Option TransformNodeReference → Pose W → S → Type 0
  Moves s target none pose s' = s ≡ s'
  Moves s target (some ref) pose s' =
      (node : N) × (world.get_transform_node s ref ≡ ok node)
      × (world.update_transform s target node node pose ≡ (s', ok_status))

  updated-ok :
      (name : Str) (r : S × Status) (s' : S)
      → updated world name r ≡ (s', ok tt)
      → r ≡ (s', ok_status)
  unfolding updated
  updated-ok name (s, ok_status) s' h = ground arith
  updated-ok name (s, failed e) s' h = ground arith

  update_output_frame-Moves :
      (s s' : S) (target : N) (ref : Option TransformNodeReference) (pose : Pose W)
      (frame name : Str)
      → update_output_frame world s target ref pose frame name ≡ (s', ok tt)
      → Moves s target ref pose s'
  unfolding update_output_frame move_frame
  update_output_frame-Moves s s' target none pose frame name h = ground arith
  update_output_frame-Moves s s' target (some ref) pose frame name h =
      elim (StatusOr-cases (world.get_transform_node s ref)) [
        | inl (node, e) ↦ (node, e, updated-ok name _ s' (rw e at h))
        | inr (f, e) ↦ ground arith
      ]

  -- The output frames are moved: the object of the selected grasp is resolved, then the grasp frame
  -- is put at the grasp, and then the pre-grasp frame at the pre-grasp pose.
  pub record FramesMoved (s s' : S) (params : GraspPlanningParams W)
      (selected : ObjectPlanningResult W) : Type 0 where
    pub target : N
    pub target_is : world.get_object s selected.candidate_object ≡ ok target
    pub between : S
    pub grasp_moved :
        Moves s target params.output_grasp_frame selected.grasp.grasp_pose.pose between
    pub pregrasp_moved :
        Moves between target params.output_pregrasp_frame selected.pre_grasp_pose.pose s'

  then_pregrasp-ok :
      (r : S × StatusOr (Unit {0})) (target : N) (ref : Option TransformNodeReference)
      (pose : Pose W) (s' : S)
      → then_pregrasp world r target ref pose ≡ (s', ok tt)
      → (between : S) × (r ≡ (between, ok tt)) × Moves between target ref pose s'
  unfolding then_pregrasp
  then_pregrasp-ok (s, err e) target ref pose s' h = ground arith
  then_pregrasp-ok (s, ok u) target ref pose s' h =
      (s, refl, update_output_frame-Moves s s' target ref pose _ _ h)

  update_frames-FramesMoved :
      (s s' : S) (params : GraspPlanningParams W) (selected : ObjectPlanningResult W)
      → update_frames_of world s (world.get_object s selected.candidate_object) params selected
        ≡ (s', ok tt)
      → FramesMoved s s' params selected
  unfolding update_frames_of
  update_frames-FramesMoved s s' params selected h =
      elim (StatusOr-cases (world.get_object s selected.candidate_object)) [
        | inl (target, e) ↦
            let (between, first, second) = then_pregrasp-ok _ target _ _ s' (rw e at h) in
            record {
              target = target;
              target_is = e;
              between = between;
              grasp_moved = update_output_frame-Moves s between target _ _ _ _ first;
              pregrasp_moved = second;
            }
        | inr (f, e) ↦ ground arith
      ]

  -- Nothing is asked for and the world stays, or the frames are moved.
  abbrev pub WorldUpdated : S → S → GraspPlanningParams W → ObjectPlanningResult W → Type 0
  WorldUpdated s s' params selected =
      ((params.output_grasp_frame ≡ none) × (params.output_pregrasp_frame ≡ none) × (s ≡ s'))
      ⊎ FramesMoved s s' params selected

  pub update_output_frames-WorldUpdated :
      (s s' : S) (params : GraspPlanningParams W) (selected : ObjectPlanningResult W)
      → update_output_frames world s params selected ≡ (s', ok tt)
      → WorldUpdated s s' params selected
  unfolding update_output_frames is_set
  update_output_frames-WorldUpdated s s' params selected h =
      elim (Option-cases params.output_grasp_frame) [
        | inr (ref, e) ↦ inr (update_frames-FramesMoved s s' params selected (ground arith))
        | inl e ↦ elim (Option-cases params.output_pregrasp_frame) [
          | inr (ref, k) ↦ inr (update_frames-FramesMoved s s' params selected (ground arith))
          | inl k ↦ inl (e, k, ground arith)
        ]
      ]
