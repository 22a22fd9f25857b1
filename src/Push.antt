-- ===== src/Push.antt =====
-- Push notifications: push_repository.py and push_dispatcher.py.
pub mod Configs
pub mod Claims
pub mod Dispatcher
