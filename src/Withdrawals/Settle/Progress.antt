-- ===== src/Withdrawals/Settle/Progress.antt =====
-- A withdrawal in flight can always be completed.
use myturn_webportal.Prelude.{ℕ}
use myturn_webportal.Prelude.Int.{pos}
use myturn_webportal.Txn
use myturn_webportal.Txn.{Tx}
use myturn_webportal.Ledger.Account.{withdrawal_clearing, system_external}
use myturn_webportal.Ledger.Accounts.{get_balance}
use myturn_webportal.Ledger.Moves.{opened}
use myturn_webportal.Ledger.Posting.Journal.{withdrawal_complete}
use myturn_webportal.Ledger.Posting.Transfer.{transferred}
use myturn_webportal.Ledger.Posting.{Ledger, Posted}
use myturn_webportal.Store.Rows.{WithdrawalRequest}
use myturn_webportal.Store.{Db}
use myturn_webportal.Withdrawals.Settle.{set_withdrawal, completed_row}

abbrev paid_by : WithdrawalRequest → Ledger → Posted × Ledger
paid_by w l =
    transferred (withdrawal_complete w.id) withdrawal_clearing system_external (pos w.amount)
      (get_balance withdrawal_clearing l) (get_balance system_external l)
      (opened withdrawal_clearing system_external l)

-- The database after the payment of a withdrawal.
abbrev pub paid : ℕ → WithdrawalRequest → Db → Db
paid ref w db =
    set_withdrawal (completed_row ref) w.id (record db { ledger = (paid_by w db.ledger).1 })
