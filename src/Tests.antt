-- ===== src/Tests.antt =====
-- Examples of the theorems, at concrete data.
mod Data
mod Registry
mod Runs
mod Chunks
mod Delivery
mod Loading
mod Bolt
mod Sanitize
mod Validator
mod Startup
mod ExitCode
mod References
mod Orchestrator
mod Graph
mod Lifecycle
mod Enrich
