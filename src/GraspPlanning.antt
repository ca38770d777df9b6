-- ===== src/GraspPlanning.antt =====
-- moveit_planning_service/src/grasp_planning_pipeline.cpp: the pipeline that plans the grasps of
-- one candidate object.
pub mod TargetId
pub mod Pipeline
pub mod SceneQuery
pub mod ObjectGeometry
pub mod BoxGrasps
pub mod Generator
