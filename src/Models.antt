-- ===== src/Models.antt =====
-- japan_agent/models.py: the data that the components share, and what its classes check.
pub mod Enums
pub mod Ticket
pub mod Portfolio
