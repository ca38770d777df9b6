-- ===== src/GraspSkill.antt =====
-- moveit_plan_grasp_skill/src/moveit_plan_grasp_skill/moveit_plan_grasp_skill.cpp: the skill that asks
-- the planning node for grasps.
pub mod Params
pub mod Goal
pub mod Call
pub mod Execute
pub mod Node
mod Tests
