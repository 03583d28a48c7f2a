-- ===== src/Reserve.antt =====
-- services/backend-api/src/ledger-accounts/contribution-guarantee-reserve.service.ts, and its settings
-- (src/config/contribution-reserve.config.ts): the reserve that a payout leaves behind, released by
-- later contributions, used for missed ones, and returned when the group completes.
pub mod Split
pub mod Release
pub mod Cover
pub mod Completion
pub mod Backing
mod Tests
