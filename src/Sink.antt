-- ===== src/Sink.antt =====
-- The private receiver of A2A push envelopes: a2a_event_sink/app.py of
-- backend/src/managed_agents_app. Texts and bodies are lists of code points and of bytes.
pub mod Texts
pub mod Bodies
pub mod Receive
pub mod Correlated
