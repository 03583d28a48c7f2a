-- ===== src/Allocation.antt =====
-- FinancialAllocationService (services/backend-api/src/ledger-accounts/financial-allocation.service.ts):
-- the money that comes in with a contribution, and the division of a cycle's pool.
pub mod Settlement
pub mod Finalization
mod Tests
