-- ===== src/Execution.antt =====
-- japan_agent/execute/service.py, and the outcomes of a request of japan_agent/execute/t212.py.
pub mod Errors
pub mod Broker
pub mod Gate
pub mod Preflight
pub mod Submit
pub mod Reconcile
pub mod Calm
pub mod Authority
pub mod Single
pub mod Immutable
mod Tests
