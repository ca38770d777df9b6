-- ===== src/PlanningNode.antt =====
-- moveit_planning_service/src/moveit_planning_node.cpp: the node that serves grasp planning and
-- motion planning once the collision scene is ready.
pub mod Action
pub mod Requests
pub mod SceneWait
