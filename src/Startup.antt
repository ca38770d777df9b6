-- ===== src/Startup.antt =====
-- moveit_planning_service/src/moveit_planning_node.cpp and status_monitor_main.cpp: how the two
-- programs start, from their configuration to the services.
pub mod Config
pub mod Monitor
pub mod Node
mod Tests
