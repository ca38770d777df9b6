-- ===== src/SceneSync.antt =====
-- moveit_planning_service/src/moveit_scene_synchronizer.cpp: MoveitSceneSynchronizer, which keeps
-- MoveIt's collision objects in step with the world.
pub mod World
pub mod Data
pub mod Poses
pub mod Fetch
pub mod Publish
pub mod Update
pub mod Tracking
pub mod Run
pub mod Initialize
pub mod Wait
pub mod Scene
pub mod Invariant
mod Tests
