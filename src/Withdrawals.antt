-- ===== src/Withdrawals.antt =====
-- services/backend-api/src/withdrawals: a member's withdrawal, from the hold to the payment or the
-- return of the money.
pub mod Limits
pub mod Hold
pub mod Settle
pub mod Disburse
pub mod Held
pub mod Steps
mod Tests
