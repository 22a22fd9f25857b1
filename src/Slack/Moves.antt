-- ===== src/Slack/Moves.antt =====
-- Interleavings of the Slack side's transactions, and what none of them can undo.
pub mod Defs
pub mod Settled
pub mod Streams
pub mod Once
pub mod Leased
pub mod Unstuck
