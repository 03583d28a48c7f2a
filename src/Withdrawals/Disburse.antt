-- ===== src/Withdrawals/Disburse.antt =====
-- createMemberWithdrawal and startAutomaticDisbursement (withdrawals.service.ts). The provider is a
-- parameter. In the source the calls of failWithdrawalInternal and completeWithdrawalInternal are
-- returned without `await`, so that the `catch` does not see what they throw: here they follow it.
pub mod Refund
use myturn_webportal.Prelude.{
  ℕ, Bool, true, false, Option, none, some, List, [], ◌∷◌, if◌then◌else◌, Result, ok, err, throw_if,
  or_throw, not, withdrawal_not_found, disbursement_failed, forbidden,
}
use myturn_webportal.Act.{Act, ◌>>=◌, ◌>>◌, rescue, modify, gets, lift, return}
use myturn_webportal.Store.Rows.{WithdrawalRequest, WithdrawalStatus}
use myturn_webportal.Store.{Db}
use myturn_webportal.Withdrawals.Limits.{WithdrawalLimitsConfig}
use myturn_webportal.Withdrawals.Hold.{HoldParams, Clock, create_withdrawal_hold}
use myturn_webportal.Withdrawals.Settle.{
  NotificationType, withdrawal_processing, Notifier, notify, find_withdrawal, set_withdrawal,
  ProviderOutcome, transfer_completed, transfer_failed, transfer_pending,
  complete_withdrawal_internal, fail_withdrawal_internal, settle_by_provider_ref,
}

pub record Transfer : Type 0 where
  pub provider_ref : ℕ
  pub status : ProviderOutcome

-- `none` is a request that throws.
pub record DisbursementProvider : Type 0 where
  pub request_transfer : WithdrawalRequest → Option Transfer
  pub is_mock : Bool

abbrev pub processing_row : ℕ → WithdrawalRequest → WithdrawalRequest
processing_row ref w = record w { status = WithdrawalStatus.processing; provider_ref = some ref }

-- What the `try` block ends with.
pub data Next : Type 0 where
  answer : WithdrawalRequest → Next
  then_fail : Next
  then_complete : ℕ → Next

abbrev as_answer : Option WithdrawalRequest → Result Next
as_answer none = err withdrawal_not_found
as_answer (some w) = ok (answer w)

-- `findUniqueOrThrow`
unfoldable pub reread : ℕ → Act Db Next
reread id db = (as_answer (find_withdrawal id db.withdrawals), db)

-- The mock provider settles at once, and this call is awaited.
unfoldable pub after_pending : Notifier → DisbursementProvider → WithdrawalRequest → ℕ → Act Db Next
unfolding reread
after_pending notifier provider w ref =
    if provider.is_mock
    then (settle_by_provider_ref notifier (some ref) true >>= λ _. reread w.id)
    else return (answer (processing_row ref w))

unfoldable pub after_accept :
    Notifier → DisbursementProvider → WithdrawalRequest → ℕ → ProviderOutcome → Act Db Next
unfolding after_pending
after_accept notifier provider w ref transfer_failed = return then_fail
after_accept notifier provider w ref transfer_completed = return (then_complete ref)
after_accept notifier provider w ref transfer_pending = after_pending notifier provider w ref

-- The `try` block.
unfoldable pub attempt : Notifier → DisbursementProvider → WithdrawalRequest → Act Db Next
unfolding after_accept
attempt notifier provider w = do
  transfer ← lift (or_throw (provider.request_transfer w) disbursement_failed)
  modify (set_withdrawal (processing_row transfer.provider_ref) w.id)
  notify notifier w.id withdrawal_processing
  after_accept notifier provider w transfer.provider_ref transfer.status

unfoldable pub finish_disbursement : Notifier → ℕ → Next → Act Db WithdrawalRequest
finish_disbursement notifier id (answer w) db = (ok w, db)
finish_disbursement notifier id then_fail db = fail_withdrawal_internal notifier id db
finish_disbursement notifier id (then_complete ref) db =
    complete_withdrawal_internal notifier id (some ref) db

unfoldable pub start_automatic_disbursement :
    Notifier → DisbursementProvider → ℕ → Act Db WithdrawalRequest
unfolding finish_disbursement
start_automatic_disbursement notifier provider id = do
  rows ← gets (λ db. db.withdrawals)
  w ← lift (or_throw (find_withdrawal id rows) withdrawal_not_found)
  next ← (λ db. rescue (return then_fail) (attempt notifier provider w db))
  finish_disbursement notifier id next

-- Without a client's idempotency key. `can_participate` is MemberParticipationService's verdict.
unfoldable pub create_member_withdrawal :
    Notifier
    → DisbursementProvider
    → WithdrawalLimitsConfig
    → Bool
    → Bool
    → Clock
    → HoldParams
    → Act Db WithdrawalRequest
create_member_withdrawal notifier provider limits can_participate restricted clock params = do
  lift (throw_if (not can_participate) forbidden)
  row ← create_withdrawal_hold limits restricted clock params
  start_automatic_disbursement notifier provider row.id
