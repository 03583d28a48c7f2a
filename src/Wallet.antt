-- ===== src/Wallet.antt =====
-- FinancialAllocationService.getMemberWalletSummary and getAdminWalletSummary
-- (services/backend-api/src/ledger-accounts/financial-allocation.service.ts): the parts that a
-- withdrawal depends on. The other fields are sums for display.
pub mod Pending
use myturn_webportal.Prelude.{
  ℕ, ◌+◌, Bool, true, false, List, [], ◌∷◌, if◌then◌else◌, ◌==◌, ◌&&◌, ok, err,
}
use myturn_webportal.Prelude.Int.{ℤ, pos, ◌-ℤ◌, clamp_ℤ}
use myturn_webportal.Ledger.Account.{
  AccountKey, member_wallet_available, member_wallet_reserved, member_deposit_escrow,
  admin_earnings,
}
use myturn_webportal.Ledger.Accounts.{get_or_create, get_balance}
use myturn_webportal.Store.Rows.{WithdrawalRequest, WithdrawalStatus}
use myturn_webportal.Store.Lemmas.{sum_by}
use myturn_webportal.Store.{Db, in_ledger, on_ledger}
use myturn_webportal.Reserve.Split.{ensure_legacy_wallet_migrated_in_tx}
use myturn_webportal.Act.{Act, ◌>>=◌, ◌>>◌, transaction, modify, gets, return}

abbrev pub is_in_flight : WithdrawalStatus → Bool
is_in_flight WithdrawalStatus.pending = true
is_in_flight WithdrawalStatus.processing = true
is_in_flight WithdrawalStatus.completed = false
is_in_flight WithdrawalStatus.failed = false

abbrev pending_amount : ℕ → WithdrawalRequest → ℕ
pending_amount actor w = if w.actor_id == actor && is_in_flight w.status then w.amount else 0

-- `_sum` over the PENDING and PROCESSING requests of the actor.
unfoldable pub pending_sum : ℕ → List WithdrawalRequest → ℕ
pending_sum actor = sum_by (pending_amount actor)

-- `Decimal.max(available - pending, 0)`
unfoldable pub withdrawable : ℕ → Db → ℕ
unfolding pending_sum
withdrawable user db =
    clamp_ℤ (
      get_balance (member_wallet_available user) db.ledger -ℤ pos (pending_sum user db.withdrawals))

abbrev open_wallets : ℕ → Db → Db
open_wallets user = on_ledger λ l.
    get_or_create (member_deposit_escrow user)
      (get_or_create (member_wallet_reserved user) (get_or_create (member_wallet_available user) l))

-- `availableBalance`
unfoldable pub get_member_wallet_summary : ℕ → Act Db ℕ
unfolding withdrawable
get_member_wallet_summary user = do
  transaction (in_ledger (ensure_legacy_wallet_migrated_in_tx user))
  modify (open_wallets user)
  gets (withdrawable user)

-- The summary of a deprecated wallet says that 0 is available.
unfoldable pub get_admin_wallet_summary : ℕ → Act Db ℕ
get_admin_wallet_summary admin = do
  modify (on_ledger (get_or_create (admin_earnings admin)))
  return 0
