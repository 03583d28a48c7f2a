-- ===== src/Withdrawals/Hold.antt =====
-- createWithdrawalHold (withdrawals.service.ts). The member's restriction is the verdict of
-- DefaultProtectionService, a phone number is its count of digits, and the time is an argument.
pub mod Start
use myturn_webportal.Prelude.{
  ℕ, ◌+◌, suc, Bool, true, false, Option, none, some, List, [], ◌∷◌, if◌then◌else◌, ltb, Result, ok,
  err, throw_if, ◌&&◌, invalid_phone, withdrawal_restricted, insufficient_balance,
}
use myturn_webportal.Prelude.Int.{ℤ, pos}
use myturn_webportal.Txn
use myturn_webportal.Txn.{Tx}
use myturn_webportal.Act.{Act, ◌>>=◌, ◌>>◌, transaction, modify, gets, lift, return}
use myturn_webportal.Ledger.Account.{
  AccountKey, member_wallet_available, admin_earnings, withdrawal_clearing,
}
use myturn_webportal.Ledger.Accounts.{get_or_create}
use myturn_webportal.Ledger.Posting.Journal.{withdrawal_hold}
use myturn_webportal.Ledger.Posting.{Ledger, Posted, post_transfer_in_tx}
use myturn_webportal.Store.Rows.{WithdrawalRequest, WithdrawalStatus, WithdrawalActorRole}
use myturn_webportal.Store.{Db, in_ledger, on_ledger}
use myturn_webportal.Wallet.{get_member_wallet_summary, get_admin_wallet_summary}
use myturn_webportal.Withdrawals.Limits.{
  WithdrawalLimitsConfig, parse_withdrawal_amount, assert_withdrawal_within_limits,
}

pub record HoldParams : Type 0 where
  pub actor_id : ℕ
  pub actor_role : WithdrawalActorRole
  pub amount : Option ℤ
  pub phone_digits : ℕ

pub record Clock : Type 0 where
  pub now : ℕ
  pub start_of_day : ℕ

abbrev pub source_account : WithdrawalActorRole → ℕ → AccountKey
source_account WithdrawalActorRole.member actor = member_wallet_available actor
source_account WithdrawalActorRole.admin actor = admin_earnings actor

abbrev pub is_member : WithdrawalActorRole → Bool
is_member WithdrawalActorRole.member = true
is_member WithdrawalActorRole.admin = false

unfoldable pub new_withdrawal : HoldParams → AccountKey → ℕ → ℕ → ℕ → WithdrawalRequest
new_withdrawal params source amount now id = record {
  id = id;
  actor_id = params.actor_id;
  actor_role = params.actor_role;
  ledger_account = source;
  amount = amount;
  status = WithdrawalStatus.pending;
  provider_ref = none;
  requested_at = now;
}

abbrev pub hold_transfer : AccountKey → ℕ → ℕ → Ledger → Result (Posted × Ledger)
hold_transfer source amount id l =
    post_transfer_in_tx (withdrawal_hold id) source withdrawal_clearing (pos amount)
      (get_or_create withdrawal_clearing l)

-- The row is created before the money moves: its id is in the key. Both accounts are open by then.
unfoldable pub hold_in_tx : HoldParams → AccountKey → ℕ → ℕ → Tx Db WithdrawalRequest
unfolding new_withdrawal
hold_in_tx params source amount now db =
    Txn.◌>>=◌ (in_ledger (hold_transfer source amount db.next_id))
      (λ _ after. ok (
        new_withdrawal params source amount now db.next_id,
        record after {
          withdrawals = new_withdrawal params source amount now db.next_id ∷ after.withdrawals;
          next_id = suc db.next_id;
        },
      ))
      db

wallet_summary : WithdrawalActorRole → ℕ → Act Db ℕ
wallet_summary WithdrawalActorRole.member actor = get_member_wallet_summary actor
wallet_summary WithdrawalActorRole.admin actor = get_admin_wallet_summary actor

unfoldable pub create_withdrawal_hold :
    WithdrawalLimitsConfig → Bool → Clock → HoldParams → Act Db WithdrawalRequest
unfolding wallet_summary
create_withdrawal_hold limits restricted clock params = do
  amount ← lift (parse_withdrawal_amount params.amount)
  lift (throw_if (ltb params.phone_digits 9) invalid_phone)
  lift (throw_if (is_member params.actor_role && restricted) withdrawal_restricted)
  available ← wallet_summary params.actor_role params.actor_id
  lift (throw_if (ltb available amount) insufficient_balance)
  rows ← gets (λ db. db.withdrawals)
  lift (
      assert_withdrawal_within_limits limits params.actor_id params.actor_role amount
        clock.start_of_day rows)
  modify (on_ledger (get_or_create (source_account params.actor_role params.actor_id)))
  transaction
      (hold_in_tx params (source_account params.actor_role params.actor_id) amount clock.now)
