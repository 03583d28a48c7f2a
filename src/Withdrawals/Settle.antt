-- ===== src/Withdrawals/Settle.antt =====
-- completeWithdrawalInternal, failWithdrawalInternal, settleByProviderRef, confirmWithdrawal,
-- hqFailStuckWithdrawal and pollProcessingWithdrawal (withdrawals.service.ts). A provider reference
-- that is empty after `trim` is `none`; whether a notification can be stored is an argument.
pub mod Cases
pub mod Outcome
pub mod Progress
use myturn_webportal.Prelude.{
  ℕ, ◌+◌, suc, Bool, true, false, Option, none, some, List, [], ◌∷◌, if◌then◌else◌, ◌==◌,
  find_first, Error, Result, ok, err, throw_if, or_throw, not, withdrawal_not_found,
  provider_ref_required, wrong_withdrawal_status, already_completed, forbidden, notification_failed,
}
use myturn_webportal.Prelude.Int.{ℤ, pos, neg}
use myturn_webportal.Txn
use myturn_webportal.Txn.{Tx}
use myturn_webportal.Act.{Act, ◌>>=◌, ◌>>◌, transaction, modify, gets, lift, return}
use myturn_webportal.Ledger.Account.{AccountKey, withdrawal_clearing, system_external}
use myturn_webportal.Ledger.Accounts.{get_or_create}
use myturn_webportal.Ledger.Moves.{opened}
use myturn_webportal.Ledger.Posting.Journal.{withdrawal_complete, withdrawal_release}
use myturn_webportal.Ledger.Posting.{
  Ledger, Posted, PostingLine, post_journal_in_tx, post_transfer_in_tx,
}
use myturn_webportal.Store.Rows.{WithdrawalRequest, WithdrawalStatus}
use myturn_webportal.Store.{Db, in_ledger, update_rows}

pub data NotificationType : Type 0 where
  withdrawal_processing withdrawal_completed withdrawal_failed : NotificationType

-- Whether `notifications.create` succeeds, for a withdrawal and a kind of notice.
abbrev pub Notifier : Type 0
Notifier = ℕ → NotificationType → Bool

unfoldable pub notify : Notifier → ℕ → NotificationType → Act Db (Unit {0})
notify notifier id kind = lift (throw_if (not (notifier id kind)) notification_failed)

unfoldable pub find_withdrawal : ℕ → List WithdrawalRequest → Option WithdrawalRequest
find_withdrawal id = find_first λ w. w.id == id

abbrev pub set_withdrawal : (WithdrawalRequest → WithdrawalRequest) → ℕ → Db → Db
set_withdrawal f id db = record db { withdrawals = update_rows (λ w. w.id == id) f db.withdrawals }

abbrev pub completed_row : ℕ → WithdrawalRequest → WithdrawalRequest
completed_row ref w = record w { status = WithdrawalStatus.completed; provider_ref = some ref }

abbrev pub failed_row : WithdrawalRequest → WithdrawalRequest
failed_row w = record w { status = WithdrawalStatus.failed }

abbrev pub complete_lines : WithdrawalRequest → List PostingLine
complete_lines w =
    record { account = withdrawal_clearing; delta = neg (pos w.amount) }
    ∷ record { account = system_external; delta = pos w.amount }
    ∷ []

abbrev pub pay_out : WithdrawalRequest → Ledger → Result (Posted × Ledger)
pay_out w l =
    post_journal_in_tx (withdrawal_complete w.id) (complete_lines w)
      (opened withdrawal_clearing system_external l)

-- `update` returns the row as it is then.
unfoldable pub complete_row : ℕ → WithdrawalRequest → Tx Db WithdrawalRequest
complete_row ref w =
    Txn.◌>>=◌ (in_ledger (pay_out w))
      λ _ db. ok (completed_row ref w, set_withdrawal (completed_row ref) w.id db)

unfoldable pub complete_current : ℕ → WithdrawalRequest → WithdrawalStatus → Tx Db WithdrawalRequest
unfolding complete_row
complete_current ref w WithdrawalStatus.completed db = ok (w, db)
complete_current ref w WithdrawalStatus.failed db = err wrong_withdrawal_status
complete_current ref w WithdrawalStatus.pending db = complete_row ref w db
complete_current ref w WithdrawalStatus.processing db = complete_row ref w db

unfoldable pub complete_in_tx : ℕ → ℕ → Tx Db WithdrawalRequest
unfolding complete_current
complete_in_tx id ref db =
    Txn.◌>>=◌ (Txn.or_throw (find_withdrawal id db.withdrawals) withdrawal_not_found)
      (λ w. complete_current ref w w.status) db

-- The notice is sent after the commit.
unfoldable pub complete_withdrawal_internal : Notifier → ℕ → Option ℕ → Act Db WithdrawalRequest
complete_withdrawal_internal notifier id provider_ref = do
  ref ← lift (or_throw provider_ref provider_ref_required)
  updated ← transaction (complete_in_tx id ref)
  notify notifier updated.id withdrawal_completed
  return updated

abbrev pub give_back : WithdrawalRequest → Ledger → Result (Posted × Ledger)
give_back w l =
    post_transfer_in_tx (withdrawal_release w.id) withdrawal_clearing w.ledger_account
      (pos w.amount) (get_or_create withdrawal_clearing l)

unfoldable pub fail_row : WithdrawalRequest → Tx Db WithdrawalRequest
fail_row w =
    Txn.◌>>=◌ (in_ledger (give_back w)) λ _ db. ok (failed_row w, set_withdrawal failed_row w.id db)

unfoldable pub fail_current : WithdrawalRequest → WithdrawalStatus → Tx Db WithdrawalRequest
unfolding fail_row
fail_current w WithdrawalStatus.failed db = ok (w, db)
fail_current w WithdrawalStatus.completed db = err already_completed
fail_current w WithdrawalStatus.pending db = fail_row w db
fail_current w WithdrawalStatus.processing db = fail_row w db

unfoldable pub fail_in_tx : ℕ → Tx Db WithdrawalRequest
unfolding fail_current
fail_in_tx id db =
    Txn.◌>>=◌ (Txn.or_throw (find_withdrawal id db.withdrawals) withdrawal_not_found)
      (λ w. fail_current w w.status) db

-- The part of failWithdrawalInternal after its early returns.
unfoldable pub fail_open : Notifier → ℕ → Act Db WithdrawalRequest
fail_open notifier id = do
  updated ← transaction (fail_in_tx id)
  notify notifier updated.id withdrawal_failed
  return updated

unfoldable pub fail_found :
    Notifier → WithdrawalRequest → WithdrawalStatus → Act Db WithdrawalRequest
unfolding fail_open
fail_found notifier w WithdrawalStatus.failed db = (ok w, db)
fail_found notifier w WithdrawalStatus.completed db = (err already_completed, db)
fail_found notifier w WithdrawalStatus.pending db = fail_open notifier w.id db
fail_found notifier w WithdrawalStatus.processing db = fail_open notifier w.id db

unfoldable pub fail_withdrawal_internal : Notifier → ℕ → Act Db WithdrawalRequest
unfolding fail_found
fail_withdrawal_internal notifier id db =
    (lift (or_throw (find_withdrawal id db.withdrawals) withdrawal_not_found) >>= λ w.
    fail_found notifier w w.status)
      db

pub data ProviderOutcome : Type 0 where
  transfer_completed transfer_failed transfer_pending : ProviderOutcome

pub data SettleResult : Type 0 where
  unknown_ref : SettleResult
  duplicate_settlement : WithdrawalStatus → SettleResult
  settled : WithdrawalRequest → SettleResult

abbrev has_ref : ℕ → Option ℕ → Bool
has_ref ref none = false
has_ref ref (some r) = r == ref

unfoldable pub find_by_ref : ℕ → List WithdrawalRequest → Option WithdrawalRequest
find_by_ref ref = find_first λ w. has_ref ref w.provider_ref

-- `outcome` is COMPLETED or FAILED in the source; `true` is COMPLETED.
unfoldable pub settle_open : Notifier → ℕ → Bool → WithdrawalRequest → Act Db SettleResult
settle_open notifier ref true w =
    complete_withdrawal_internal notifier w.id (some ref) >>= λ updated. return (settled updated)
settle_open notifier ref false w =
    fail_withdrawal_internal notifier w.id >>= λ updated. return (settled updated)

unfoldable pub settle_found :
    Notifier → ℕ → Bool → WithdrawalRequest → WithdrawalStatus → Act Db SettleResult
unfolding settle_open
settle_found notifier ref outcome w WithdrawalStatus.completed db =
    (ok (duplicate_settlement WithdrawalStatus.completed), db)
settle_found notifier ref outcome w WithdrawalStatus.failed db =
    (ok (duplicate_settlement WithdrawalStatus.failed), db)
settle_found notifier ref outcome w WithdrawalStatus.pending db =
    settle_open notifier ref outcome w db
settle_found notifier ref outcome w WithdrawalStatus.processing db =
    settle_open notifier ref outcome w db

unfoldable pub settle_row : Notifier → ℕ → Bool → Option WithdrawalRequest → Act Db SettleResult
unfolding settle_found
settle_row notifier ref outcome none db = (ok unknown_ref, db)
settle_row notifier ref outcome (some w) db = settle_found notifier ref outcome w w.status db

unfoldable pub settle_by_provider_ref : Notifier → Option ℕ → Bool → Act Db SettleResult
unfolding settle_row
settle_by_provider_ref notifier none outcome db = (err provider_ref_required, db)
settle_by_provider_ref notifier (some ref) outcome db =
    settle_row notifier ref outcome (find_by_ref ref db.withdrawals) db

confirm_found :
    Notifier → Option ℕ → WithdrawalRequest → WithdrawalStatus → Act Db WithdrawalRequest
confirm_found notifier ref w WithdrawalStatus.completed db = (ok w, db)
confirm_found notifier ref w WithdrawalStatus.failed db = (err wrong_withdrawal_status, db)
confirm_found notifier ref w WithdrawalStatus.pending db =
    complete_withdrawal_internal notifier w.id ref db
confirm_found notifier ref w WithdrawalStatus.processing db =
    complete_withdrawal_internal notifier w.id ref db

unfoldable pub confirm_withdrawal : Notifier → ℕ → Option ℕ → Act Db WithdrawalRequest
unfolding confirm_found
confirm_withdrawal notifier id provider_ref = do
  rows ← gets (λ db. db.withdrawals)
  w ← lift (or_throw (find_withdrawal id rows) withdrawal_not_found)
  _ ← lift (or_throw provider_ref provider_ref_required)
  confirm_found notifier provider_ref w w.status

abbrev is_processing : WithdrawalStatus → Bool
is_processing WithdrawalStatus.processing = true
is_processing WithdrawalStatus.pending = false
is_processing WithdrawalStatus.completed = false
is_processing WithdrawalStatus.failed = false

-- assertHqCanFailStuck, then the failure.
unfoldable pub hq_fail_stuck_withdrawal : Notifier → ℕ → Act Db WithdrawalRequest
hq_fail_stuck_withdrawal notifier id = do
  rows ← gets (λ db. db.withdrawals)
  w ← lift (or_throw (find_withdrawal id rows) withdrawal_not_found)
  lift (throw_if (not (is_processing w.status)) forbidden)
  fail_withdrawal_internal notifier id

-- What the provider's answer does; no answer that is pending is settled.
poll_outcome : Notifier → ℕ → ProviderOutcome → Act Db (Unit {0})
poll_outcome notifier ref transfer_completed =
    settle_by_provider_ref notifier (some ref) true >>= λ _. return tt
poll_outcome notifier ref transfer_failed =
    settle_by_provider_ref notifier (some ref) false >>= λ _. return tt
poll_outcome notifier ref transfer_pending = return tt

poll_row :
    Notifier → (ℕ → ProviderOutcome) → WithdrawalRequest → Option ℕ → Act Db WithdrawalRequest
unfolding poll_outcome
poll_row notifier verify w none = return w
poll_row notifier verify w (some ref) =
    if is_processing w.status
    then (poll_outcome notifier ref (verify ref)
        >> gets (λ db. find_withdrawal w.id db.withdrawals)
        >>= λ row. lift (or_throw row withdrawal_not_found))
    else return w

unfoldable pub poll_processing_withdrawal :
    Notifier → (ℕ → ProviderOutcome) → ℕ → Act Db WithdrawalRequest
unfolding poll_row
poll_processing_withdrawal notifier verify id = do
  rows ← gets (λ db. db.withdrawals)
  w ← lift (or_throw (find_withdrawal id rows) withdrawal_not_found)
  poll_row notifier verify w w.provider_ref
