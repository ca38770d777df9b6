-- ===== src/StaticTransforms.antt =====
-- moveit_planning_service/src/publish_static_transforms.cpp: PublishStaticTransforms, with what the
-- broadcaster that it returns has been told to send.
mod Laws
mod Tests
use intrinsic_moveit.Prelude.{
  Str, codes, text_or_default, is_empty, List, [], ◌∷◌, ◌++◌, Option, none, some, Bool, true, false,
  if◌then◌else◌,
}
use intrinsic_moveit.Double.{Double, nought}
use intrinsic_moveit.Messages.{Quaternion}
use intrinsic_moveit.SceneSync.World.{TransformStamped}

pub record StaticTransformsConfig : Type 0 where
  pub publish_world_root_tf : Bool
  pub publish_robot_base_tf : Bool
  pub world_frame : Str
  pub robot_base_frame : Str

module _ {W : Type 0} ⦃d : Double W⦄ where
  unfoldable pub static_transform : Str → Str → Quaternion W → TransformStamped W
  static_transform frame_id child_frame_id rotation = record {
    frame_id = frame_id;
    child_frame_id = child_frame_id;
    translation = record { x = nought; y = nought; z = nought };
    rotation = rotation;
  }

  unfoldable pub world_root_tf : StaticTransformsConfig → List (TransformStamped W)
  world_root_tf config =
      if config.publish_world_root_tf
      then static_transform (text_or_default config.world_frame (codes "world")) (codes "root")
          (record { x = nought; y = nought; z = nought; w = d.ratio 1 1 })
        ∷ []
      else []

  unfoldable pub robot_base_tf : StaticTransformsConfig → List (TransformStamped W)
  robot_base_tf config =
      if config.publish_robot_base_tf
      then static_transform (text_or_default config.robot_base_frame (codes "ur_module/base_link"))
          (codes "base_link") (record { x = nought; y = nought; z = d.ratio 1 1; w = nought })
        ∷ []
      else []

  -- `none` without a node; otherwise the messages that the broadcaster sends.
  unfoldable pub publish_static_transforms :
      Bool → StaticTransformsConfig → Option (List (List (TransformStamped W)))
  publish_static_transforms false config = none
  publish_static_transforms true config =
      let static_transforms = world_root_tf config ++ robot_base_tf config in
      some (if is_empty static_transforms then [] else static_transforms ∷ [])
