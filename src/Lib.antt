-- ===== src/Lib.antt =====
-- Verification of the MoveIt planning service and its skills.
--
-- The program. moveit_planning_service is a ROS 2 node (moveit_planning_node.cpp) that serves grasp
-- planning as the action grasp_planning/plan_grasps and motion planning as a service. An accepted
-- goal runs the grasp planning pipeline (grasp_planning_pipeline.cpp) for each candidate object, and
-- the best grasps of all candidates are returned. The scene synchronizer
-- (moveit_scene_synchronizer.cpp) reads the collision geometry of the world service and publishes it
-- to MoveIt; the node accepts goals only once a thread has seen the scene populated. The status
-- monitor (status_monitor.cpp) reports the node's health and enables or disables it. The skill
-- moveit_plan_grasp_skill turns its parameters into a goal, calls the action, checks the answer and
-- moves frames of the object world. The skill moveit_plan_motion_skill calls the motion planning
-- service.
--
-- The files.
--   Prelude: texts as lists of bytes, dictionaries, results, integers; Double: the operations on
--   doubles as an interface, with nothing assumed about rounding; Parameters: ROS parameters and
--   get_double_parameter of moveit_planning_node.cpp; Messages: the messages of
--   moveit_planning_interfaces.
--   PlanningNode.Requests: handle_plan_grasps_goal, handle_plan_grasps_cancel and
--   handle_motion_plan_request. PlanningNode.Action: PlanGraspsForCandidate and
--   execute_plan_grasps_action, with the sort by quality in Action.Sort. PlanningNode.SceneWait:
--   orchestrate_scene_synchronization, over the list of the rounds of its loop.
--   GraspPlanning.TargetId: GraspPlanningPipeline::ResolveTargetObjectId.
--   GraspPlanning.SceneQuery: ResolveCandidateTimeoutSec and the two queries of the planning scene.
--   GraspPlanning.Pipeline: PlanGrasps; Task is what it sets up and asks of MoveIt Task Constructor,
--   Gripper what its grasps say of the gripper, Ranking its loop over the solutions, SubSolution
--   findSubSolution, ModelCache the constructor and GetRobotModel. Stops has rules for early returns,
--   Grasps, Hand, Postures and Ids what holds of the gripper and of the grasps' postures and ids.
--   GraspPlanning.ObjectGeometry: computeObjectBoundingBox of object_geometry.cpp.
--   GraspPlanning.BoxGrasps: the stage GenerateBoxGraspPoses of generate_box_grasp_poses.cpp; Poses
--   has the loops of compute. GraspPlanning.Generator: the stage as PlanGrasps configures it.
--   StaticTransforms: PublishStaticTransforms of publish_static_transforms.cpp.
--   Startup: the main functions of moveit_planning_node.cpp and status_monitor_main.cpp, with their
--   parameters (Config, Monitor) and the callbacks of the node that synchronize first (Node). A
--   parameter is a text with a value of one of the types of rclcpp (Parameters).
--   StatusMonitor.Health: MoveItStatusClient::check_health and record_joint_state.
--   StatusMonitor.Service: trigger_scene_synchronization and the service calls GetState, Enable and
--   Disable as steps.
--   SceneSync: MoveitSceneSynchronizer. Data is the state, Fetch the loops of
--   FetchAndSynchronizeCollisionObjects, Publish addCollisionObjectsToScene and
--   removeCollisionObject, Update updateCollisionObjects, Tracking the TF callback of initialize,
--   Run the sync thread, the trigger service, and runs as sequences of calls in any order, and
--   Initialize the constructor, the rest of initialize and the destructor.
--   Publish.Collect counts what is collected. Poses describes the poses and primitives of an
--   object's messages and Update.Due the moves that are due, both for the theorems; Update.Agrees
--   and Update.Records compare the states of an update. Invariant is what every call keeps, Wait
--   what the sync thread waits for, and Scene an abstract view of MoveIt's scene, the set of objects
--   that the published messages make.
--   GraspSkill: the skill. Params are its messages, Goal is CreatePlanGraspsGoal, Call
--   MoveItErrorCodeToStatus and CallGraspPlanningAction, Execute GraspPlanningSkill::Execute, with the
--   check of the ranked grasps in Execute.Results, the object world in Execute.World and the response
--   in Execute.Response. Node joins the skill to the action of PlanningNode.
--   MotionSkill: moveit_plan_motion_skill, with the planning node's service in MotionSkill.Laws.
--
-- What is a parameter. The pipeline of an action is a function of the goal, the candidate and its
-- index, which GraspPlanning.Pipeline.Laws fills with PlanGrasps; cancellation is a function of
-- the candidate's number. The world service, the object world, the action client, the conversion
-- of glTF meshes, the clock, and what ROS and MoveIt answer, the robot model and the solutions of
-- MoveIt Task Constructor included, are arguments of the definitions that use them. A std::sort
-- leaves the order of equal elements open, and a hash map its order of iteration: the model has
-- one order, and the theorems on the sort do not depend on it.
--
-- Bounds. Loops over messages are structural recursions. The loop of the waiting thread runs over a
-- list of rounds, which stands for the rounds that happen before the program stops. The decimal text
-- of a number takes as many steps as its value plus one, which is enough for each digit. Casts to
-- uint32_t are written out; the motion skill's cast of a double to a 32-bit int is undefined where
-- the value does not fit.
--
-- What is not modelled: logging and time stamps; the waits and the locks of the threads (each call
-- of the synchronizer is one step, and the fetch and the publication of a round are two in a run);
-- the reading of the configuration file, executors, callback groups and the gRPC server; launch
-- files, scripts, robot descriptions and MoveIt configuration.
pub mod Prelude
pub mod Double
pub mod Parameters
pub mod Messages
pub mod GraspPlanning
pub mod PlanningNode
pub mod StaticTransforms
pub mod Startup
pub mod StatusMonitor
pub mod GraspSkill
pub mod SceneSync
pub mod MotionSkill
