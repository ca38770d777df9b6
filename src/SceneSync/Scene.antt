-- ===== src/SceneSync/Scene.antt =====
-- What MoveIt's planning scene holds after the messages of the synchronizer
-- (moveit_planning_service/src/moveit_scene_synchronizer.cpp): an abstract view of the scene as the
-- set of its objects, which forgets their shapes and poses.
pub mod Moves
pub mod Adds
pub mod Laws
use intrinsic_moveit.Prelude.{
  ℕ, ℤ, Str, str_eq, List, [], ◌∷◌, Option, Bool, false, not, ◌&&◌, ◌||◌,
}
use intrinsic_moveit.Double.{Double, Cmath}
use intrinsic_moveit.SceneSync.World.{
  CollisionObject, Operation, add_operation, move_operation, remove_operation, WorldClient,
  ShapeMesh,
}
use intrinsic_moveit.SceneSync.Data.{Config, Data}
use intrinsic_moveit.SceneSync.Run.{Call, step}

-- Whether the scene holds an object.
abbrev pub Scene : Type 0
Scene = Str → Bool

abbrev pub no_objects : Scene
no_objects = λ id. false

-- The operations of moveit_msgs/CollisionObject: a move of an object that is not there adds none.
abbrev pub changed : Operation → Str → Scene → Scene
changed add_operation id scene = λ other. str_eq id other || scene other
changed move_operation id scene = scene
changed remove_operation id scene = λ other. not (str_eq id other) && scene other

abbrev pub after_messages : {W : Type 0} → Scene → List (CollisionObject W) → Scene
after_messages scene [] = scene
after_messages scene (m ∷ messages) = after_messages (changed m.operation m.id scene) messages

module _ {W : Type 0} ⦃d : Double W⦄ ⦃m : Cmath W⦄ (world : WorldClient W)
    (create_mesh : List ℕ → Option (ShapeMesh W)) (seconds : ℤ → W) (config : Config W) where
  unfoldable pub scene_after : Data W → Scene → List (Call W) → Scene
  scene_after s scene [] = scene
  scene_after s scene (call ∷ calls) =
      let r = step world create_mesh seconds config s call in
      scene_after r.0 (after_messages scene r.1) calls
