-- ===== src/Payouts.antt =====
-- services/backend-api/src/payouts: the end of a cycle.
pub mod Advance
pub mod Recipient
pub mod Params
pub mod Readiness
pub mod Finalize
mod Tests
