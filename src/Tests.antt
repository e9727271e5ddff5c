-- ===== src/Tests.antt =====
-- Runs of the models on a small deployment, and instances of the theorems.
mod Fixtures
mod TrafficRuns
mod QuotaRuns
mod TlsRuns
mod RealmRuns
mod HealthRuns
mod AdminRuns
mod SessionRuns
mod AgentRuns
