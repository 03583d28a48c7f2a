-- ===== src/CycleRisk.antt =====
-- services/backend-api/src/cycle-risk: what happens to members who do not pay.
pub mod Deposits
pub mod Protection
pub mod Safety
pub mod Compliance
mod Tests
