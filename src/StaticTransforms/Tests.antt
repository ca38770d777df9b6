-- ===== src/StaticTransforms/Tests.antt =====
-- The broadcast of a configuration with a world frame of its own and no name for the robot's base.
use intrinsic_moveit.Prelude.{ℤ, codes, List, [], true, some, ◌≡◌}
use intrinsic_moveit.Double.{milli_double}
use intrinsic_moveit.SceneSync.World.{TransformStamped}
use intrinsic_moveit.StaticTransforms.{StaticTransformsConfig, publish_static_transforms}
use intrinsic_moveit.StaticTransforms.Laws.{IsBridge, publish_static_transforms-IsBridge}

abbrev config : StaticTransformsConfig
config = record {
  publish_world_root_tf = true;
  publish_robot_base_tf = true;
  world_frame = codes "map";
  robot_base_frame = [];
}

publish_static_transforms-IsBridge_example :
    (messages : List (List (TransformStamped ℤ))) × (publish_static_transforms true config
      ≡ some messages)
    × IsBridge config messages
publish_static_transforms-IsBridge_example = publish_static_transforms-IsBridge config
