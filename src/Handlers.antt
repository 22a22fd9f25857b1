-- ===== src/Handlers.antt =====
-- The Slack side's handlers: handlers/agent_input.py of backend/src/managed_agents_app.
pub mod World
pub mod Claims
pub mod Messages
pub mod Controls
pub mod Settles
pub mod Released
