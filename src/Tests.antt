-- ===== src/Tests.antt =====
-- Runs and theorems at concrete inputs.
mod Fixtures
mod RunTests
mod Witnesses
mod DispatchWitnesses
mod PushFixtures
mod MoreWitnesses
mod RetryWitnesses
mod ThreadWitnesses
mod SlackWitnesses
mod SinkWitnesses
mod TurnWitnesses
mod PageWitnesses
mod ServiceWitnesses
mod HandlerWitnesses
