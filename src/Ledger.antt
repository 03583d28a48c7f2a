-- ===== src/Ledger.antt =====
-- services/backend-api/src/ledger-accounts: the accounts, and the posting of balanced journals.
pub mod Account
pub mod Posting
pub mod Accounts
pub mod Moves
pub mod Balances
pub mod Conserved
mod Tests
