-- ===== src/Service.antt =====
-- The A2A service of the controller: cma_controller/service.py of backend/src/managed_agents_app.
pub mod Pages
pub mod World
pub mod Continue
pub mod Send
pub mod Orphans
pub mod History
