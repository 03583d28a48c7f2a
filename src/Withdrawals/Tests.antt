-- ===== src/Withdrawals/Tests.antt =====
-- Runs of the withdrawals, and their theorems at them.
use myturn_webportal.Prelude.{◌+◌, ◌-◌, ◌≡◌, refl, true, false, none, some, [], ◌∷◌, ok}
use myturn_webportal.Prelude.Int.{pos, negsuc, ◌+ℤ◌, neg}
use myturn_webportal.Dict.{lookup, insert}
use myturn_webportal.Ledger.Account.{
  key_eq, member_wallet_available, withdrawal_clearing, system_external,
}
use myturn_webportal.Ledger.Accounts.{get_balance, get_or_create}
use myturn_webportal.Ledger.Posting.Journal.{withdrawal_hold, withdrawal_release}
use myturn_webportal.Ledger.Posting.{
  LedgerTransaction, find_transaction, post_transfer_in_tx, post_journal_in_tx, assert_balanced,
  check_lines, assert_non_negative_after_delta, apply_lines,
}
use myturn_webportal.Store.Rows.{WithdrawalRequest, WithdrawalStatus, WithdrawalActorRole}
use myturn_webportal.Store.{Db, update_rows}
use myturn_webportal.Wallet.{withdrawable}
use myturn_webportal.Wallet.Pending.{hold-lowers_twice}
use myturn_webportal.Withdrawals.Held.{IsHeld}
use myturn_webportal.Withdrawals.Hold.{HoldParams, new_withdrawal, hold_in_tx}
use myturn_webportal.Withdrawals.Settle.{
  Notifier, find_withdrawal, failed_row, fail_in_tx, fail_row, fail_current, settle_by_provider_ref,
  transfer_pending, withdrawal_processing,
}
use myturn_webportal.Withdrawals.Disburse.{DisbursementProvider, start_automatic_disbursement}
use myturn_webportal.Withdrawals.Steps.{
  Steps, stay, then_step, hold_step, fail_step, Steps-IsHeld, Steps-final,
}
use myturn_webportal.Withdrawals.Steps.Service.{settle-IsStepwise, start-Steps}

-- Member 3 has 100 available and asks for 40.
abbrev rich : Db
rich = record {
  ledger = record {
    accounts =
        (member_wallet_available 3, pos 100)
        ∷ (withdrawal_clearing, pos 0)
        ∷ (system_external, pos 0)
        ∷ [];
    transactions = [];
  };
  reserves = [];
  coverages = [];
  contributions = [];
  payments = [];
  groups = [];
  members = [];
  payouts = [];
  withdrawals = [];
  wallets = [];
  users = [];
  earnings = [];
  next_id = 50;
}

rich-IsHeld : IsHeld rich
unfolding get_balance lookup find_transaction
rich-IsHeld = record {
  unique_ids = tt;
  below = tt;
  sound = tt;
  fresh = λ i le. record { hold = refl; complete = refl; release = refl };
  cleared = refl;
}

abbrev asked : HoldParams
asked = record {
  actor_id = 3;
  actor_role = WithdrawalActorRole.member;
  amount = some (pos 40);
  phone_digits = 10;
}

abbrev request : WithdrawalRequest
request = record {
  id = 50;
  actor_id = 3;
  actor_role = WithdrawalActorRole.member;
  ledger_account = member_wallet_available 3;
  amount = 40;
  status = WithdrawalStatus.pending;
  provider_ref = none;
  requested_at = 9;
}

abbrev held_row : LedgerTransaction
held_row = record {
  idempotency_key = withdrawal_hold 50;
  lines =
      record { account = member_wallet_available 3; delta = negsuc 39; balance_after = pos 60 }
      ∷ record { account = withdrawal_clearing; delta = pos 40; balance_after = pos 40 }
      ∷ [];
}

abbrev held : Db
held = record rich {
  ledger = record {
    accounts =
        (member_wallet_available 3, pos 60)
        ∷ (withdrawal_clearing, pos 40)
        ∷ (system_external, pos 0)
        ∷ [];
    transactions = held_row ∷ [];
  };
  withdrawals = request ∷ [];
  wallets = [];
  users = [];
  earnings = [];
  next_id = 51;
}

hold_runs : hold_in_tx asked (member_wallet_available 3) 40 9 rich ≡ ok (request, held)
unfolding hold_in_tx new_withdrawal post_transfer_in_tx post_journal_in_tx assert_balanced
    check_lines assert_non_negative_after_delta apply_lines find_transaction lookup insert ◌+ℤ◌ neg
    get_or_create
hold_runs = refl

hold-lowers_twice_example : withdrawable 3 held ≡ withdrawable 3 rich - (40 + 40)
hold-lowers_twice_example = hold-lowers_twice asked 40 9 rich held request rich-IsHeld hold_runs

hold-Steps : Steps rich held
hold-Steps =
    then_step stay (hold_step asked (member_wallet_available 3) 40 9 request held hold_runs)

Steps-IsHeld_example : IsHeld held
Steps-IsHeld_example = Steps-IsHeld rich held hold-Steps rich-IsHeld

abbrev returned_row : LedgerTransaction
returned_row = record {
  idempotency_key = withdrawal_release 50;
  lines =
      record { account = withdrawal_clearing; delta = negsuc 39; balance_after = pos 0 }
      ∷ record { account = member_wallet_available 3; delta = pos 40; balance_after = pos 100 }
      ∷ [];
}

abbrev returned : Db
returned = record held {
  ledger = record {
    accounts =
        (member_wallet_available 3, pos 100)
        ∷ (withdrawal_clearing, pos 0)
        ∷ (system_external, pos 0)
        ∷ [];
    transactions = returned_row ∷ held_row ∷ [];
  };
  withdrawals = failed_row request ∷ [];
}

fail_runs : fail_in_tx 50 held ≡ ok (failed_row request, returned)
unfolding fail_in_tx fail_current fail_row find_withdrawal post_transfer_in_tx post_journal_in_tx
    assert_balanced check_lines assert_non_negative_after_delta apply_lines find_transaction lookup
    insert ◌+ℤ◌ neg get_or_create update_rows
fail_runs = refl

-- After the failure a second member could ask; here the first asks again for 40.
abbrev asked_again : WithdrawalRequest
asked_again = record request { id = 51 }

abbrev second_row : LedgerTransaction
second_row = record held_row { idempotency_key = withdrawal_hold 51 }

abbrev again : Db
again = record returned {
  ledger = record {
    accounts =
        (member_wallet_available 3, pos 60)
        ∷ (withdrawal_clearing, pos 40)
        ∷ (system_external, pos 0)
        ∷ [];
    transactions = second_row ∷ returned_row ∷ held_row ∷ [];
  };
  withdrawals = asked_again ∷ failed_row request ∷ [];
  wallets = [];
  users = [];
  earnings = [];
  next_id = 52;
}

second_runs : hold_in_tx asked (member_wallet_available 3) 40 9 returned ≡ ok (asked_again, again)
unfolding hold_in_tx new_withdrawal post_transfer_in_tx post_journal_in_tx assert_balanced
    check_lines assert_non_negative_after_delta apply_lines find_transaction lookup insert ◌+ℤ◌ neg
    get_or_create
second_runs = refl

returned-IsHeld : IsHeld returned
returned-IsHeld =
    Steps-IsHeld held returned
      (then_step stay (fail_step 50 (failed_row request) returned fail_runs)) Steps-IsHeld_example

Steps-final_example : find_withdrawal 50 again.withdrawals ≡ some (failed_row request)
unfolding find_withdrawal
Steps-final_example =
    Steps-final 50 (failed_row request) refl returned again
      (then_step stay
        (hold_step asked (member_wallet_available 3) 40 9 asked_again again second_runs))
      returned-IsHeld refl

-- The notice of the processing cannot be stored, the others can.
abbrev notices : Notifier
notices id withdrawal_processing = false
notices id _ = true

abbrev accepting : DisbursementProvider
accepting = record {
  request_transfer = λ w. some (record { provider_ref = 77; status = transfer_pending });
  is_mock = false;
}

settle-IsStepwise_example : Steps held (settle_by_provider_ref notices (some 77) true held).1
settle-IsStepwise_example = settle-IsStepwise notices (some 77) true held

start-Steps_example : Steps held (start_automatic_disbursement notices accepting 50 held).1
unfolding find_withdrawal
start-Steps_example = start-Steps notices accepting 50 request held refl refl
