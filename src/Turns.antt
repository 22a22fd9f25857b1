-- ===== src/Turns.antt =====
-- Logical turns of the application on controller-owned tasks: agent_control_plane/service.py of
-- backend/src/managed_agents_app, over the threads' tables.
pub mod Send
pub mod Bound
pub mod Outcomes
