-- ===== src/StatusMonitor.antt =====
-- moveit_planning_service/src/status_monitor.cpp: the health checks of the planning stack and the
-- service that reports them.
pub mod Health
pub mod Service
