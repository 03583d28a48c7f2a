-- ===== src/Ledger/Tests.antt =====
-- Runs of the ledger, and its theorems at them.
use myturn_webportal.Prelude.{
  ◌≡◌, refl, true, false, List, [], ◌∷◌, arith, ok, err, insufficient_balance,
}
use myturn_webportal.Prelude.Int.{pos, negsuc, ◌+ℤ◌}
use myturn_webportal.Dict.{lookup, insert, total}
use myturn_webportal.Ledger.Account.{
  key_eq, platform_float, system_external, group_pool, withdrawal_clearing, member_wallet_available,
}
use myturn_webportal.Ledger.Posting.Journal.{IdempotencyKey, contribution_inflow}
use myturn_webportal.Ledger.Posting.Effect.{post_journal-total}
use myturn_webportal.Ledger.Posting.Solvency.{IsSolvent, post_journal-IsSolvent}
use myturn_webportal.Ledger.Posting.Idempotency.{post_journal-retry}
use myturn_webportal.Ledger.Posting.{
  PostingLine, LedgerTransaction, Ledger, check_lines, apply_lines, assert_balanced,
  assert_non_negative_after_delta, find_transaction, post_journal_in_tx,
}

abbrev start : Ledger
start = record {
  accounts =
      (system_external, pos 0)
      ∷ (platform_float, pos 0)
      ∷ (group_pool 7, pos 0)
      ∷ (member_wallet_available 3, pos 900)
      ∷ (withdrawal_clearing, pos 0)
      ∷ [];
  transactions = [];
}

-- The four lines of a contribution of 50.00: in from outside, through the float, to the pool.
abbrev inflow : List PostingLine
inflow =
    record { account = system_external; delta = negsuc 4999 }
    ∷ record { account = platform_float; delta = pos 5000 }
    ∷ record { account = platform_float; delta = negsuc 4999 }
    ∷ record { account = group_pool 7; delta = pos 5000 }
    ∷ []

abbrev day_one : IdempotencyKey
day_one = contribution_inflow 4 1

abbrev inflow_row : LedgerTransaction
inflow_row = record {
  idempotency_key = day_one;
  lines =
      record { account = system_external; delta = negsuc 4999; balance_after = negsuc 4999 }
      ∷ record { account = platform_float; delta = pos 5000; balance_after = pos 5000 }
      ∷ record { account = platform_float; delta = negsuc 4999; balance_after = pos 0 }
      ∷ record { account = group_pool 7; delta = pos 5000; balance_after = pos 5000 }
      ∷ [];
}

abbrev collected : Ledger
collected = record {
  accounts =
      (system_external, negsuc 4999)
      ∷ (platform_float, pos 0)
      ∷ (group_pool 7, pos 5000)
      ∷ (member_wallet_available 3, pos 900)
      ∷ (withdrawal_clearing, pos 0)
      ∷ [];
  transactions = inflow_row ∷ [];
}

inflow_posts :
    post_journal_in_tx day_one inflow start
    ≡ ok (record { transaction = inflow_row; duplicate = false }, collected)
unfolding post_journal_in_tx assert_balanced check_lines assert_non_negative_after_delta apply_lines
    find_transaction lookup insert ◌+ℤ◌
inflow_posts = refl

-- The pool cannot pay before it is filled: the lines are checked in their order.
pool_first :
    post_journal_in_tx day_one
      (record { account = group_pool 7; delta = negsuc 4999 }
        ∷ record { account = group_pool 7; delta = pos 5000 }
        ∷ [])
      start
    ≡ err insufficient_balance
unfolding post_journal_in_tx assert_balanced check_lines assert_non_negative_after_delta apply_lines
    find_transaction lookup insert ◌+ℤ◌
pool_first = refl

start-IsSolvent : IsSolvent start.accounts
unfolding lookup
start-IsSolvent k b found internal = ground arith

post_journal-total_example : total collected.accounts ≡ total start.accounts
post_journal-total_example = post_journal-total day_one inflow start inflow_posts

post_journal-IsSolvent_example : IsSolvent collected.accounts
post_journal-IsSolvent_example =
    post_journal-IsSolvent day_one inflow start start-IsSolvent inflow_posts

post_journal-retry_example :
    post_journal_in_tx day_one inflow collected
    ≡ ok (record { transaction = inflow_row; duplicate = true }, collected)
unfolding assert_balanced ◌+ℤ◌
post_journal-retry_example = post_journal-retry day_one inflow inflow start inflow_posts refl
