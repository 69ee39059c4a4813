-- ===== src/Risk.antt =====
-- japan_agent/risk/engine.py: the policy and the violations. `Build` and `Validate` are the two
-- methods of ProposalBuilder; the modules below them say what passes.
pub mod Policy
pub mod Checks
pub mod Build
pub mod Validate
pub mod Samples
mod Tests
