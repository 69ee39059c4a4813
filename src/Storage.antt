-- ===== src/Storage.antt =====
-- japan_agent/storage.py: the tables of the agent's database and its operations.
pub mod Iso
pub mod Ledger
pub mod Rows
pub mod Proposals
pub mod Executions
mod Tests
