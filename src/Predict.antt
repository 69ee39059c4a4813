-- ===== src/Predict.antt =====
-- The package predict_agent: the outcomes of markets, the paper ledger with its forecasts, tickets and
-- cash, and the policy that trades on paper.
pub mod Outcome
pub mod Observation
pub mod Fills
pub mod Gamma
pub mod Params
pub mod Policy
pub mod Ledger
pub mod Money
pub mod Cash
pub mod Settlement
pub mod Tickets
pub mod Cohorts
pub mod Forecasts
pub mod Budget
pub mod Paper
mod Tests
