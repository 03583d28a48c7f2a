-- ===== src/Reserve/Tests.antt =====
-- Runs of the reserve's operations, and their theorems at them.
use myturn_webportal.Prelude.{
  ℕ, ◌-◌, ◌≤◌, ◌≡◌, refl, true, false, some, List, [], ◌∷◌, arith, ok, min,
}
use myturn_webportal.Prelude.Int.{ℤ, pos, negsuc, ◌+ℤ◌, ◌-ℤ◌, ◌≤ℤ◌, neg}
use myturn_webportal.Dict.{lookup, insert}
use myturn_webportal.Shared.ReserveRules.{
  compute_reserve_bps, compute_reserve_amount_minor, next_reserve_release_minor,
  post_payout_contribution_units, missed_contribution_minor,
}
use myturn_webportal.Ledger.Account.{
  AccountKey, key_eq, member_wallet_reserved, member_wallet_available, group_pool,
}
use myturn_webportal.Ledger.Accounts.{get_balance, get_or_create}
use myturn_webportal.Ledger.Moves.{move_between}
use myturn_webportal.Ledger.Posting.Effect.{delta_on}
use myturn_webportal.Ledger.Posting.Journal.{orphan_sweep, reserve_release, default_cover}
use myturn_webportal.Ledger.Posting.Transfer.{transfer_lines}
use myturn_webportal.Ledger.Posting.{
  LedgerTransaction, find_transaction, post_transfer_in_tx, post_journal_in_tx, assert_balanced,
  check_lines, assert_non_negative_after_delta, apply_lines,
}
use myturn_webportal.Store.Rows.{Reserve, ReserveStatus, Contribution, ContributionStatus}
use myturn_webportal.Store.{Db, update_rows}
use myturn_webportal.Reserve.Backing.{IsConsistent}
use myturn_webportal.Reserve.Split.{ReserveConfig, ReserveSplitResult, compute_split}
use myturn_webportal.Reserve.Split.Parts.{compute_split-parts}
use myturn_webportal.Reserve.Release.{
  ReleaseParams, released, next_release, find_active_reserve, release_from, finish_release,
  try_release_on_payment_settled_in_tx,
}
use myturn_webportal.Reserve.Release.Effect.{try_release-IsConsistent}
use myturn_webportal.Reserve.Cover.{
  CoverParams, covered, missed, find_contribution, find_coverage, finish_cover, cover_from,
  cover_default_from_reserve_in_tx,
}
use myturn_webportal.Reserve.Cover.Effect.{cover_default-IsConsistent, cover_default-pays}
use myturn_webportal.Reserve.Completion.{sweep_balance, sweep_orphaned_reserved_balance_in_tx}

abbrev config : ReserveConfig
config = record { enabled = true; max_bps = pos 3000; min_bps = pos 0 }

-- Of a payout of 1,575.00 to the first of five members, 24% is held back.
abbrev first_split : ReserveSplitResult
first_split = record {
  reserve_bps = 2400;
  reserve_minor = 37800;
  available_minor = pos 119700;
  units = 28;
}

compute_split-parts_example :
    (pos first_split.reserve_minor +ℤ first_split.available_minor ≡ pos 157500)
    × (pos 0 ≤ℤ first_split.available_minor)
unfolding compute_split compute_reserve_bps compute_reserve_amount_minor
    post_payout_contribution_units ◌-ℤ◌
compute_split-parts_example = compute_split-parts config 157500 1 5 7 (omega arith) refl

-- Member 3 has a reserve of 900 in group 7, to be released over three units.
abbrev reserve_of : ℕ → Reserve
reserve_of remaining = record {
  id = 11;
  user_id = 3;
  group_id = 7;
  payout_id = 5;
  cycle_number = 1;
  payout_position = 1;
  original_reserve_amount = 900;
  remaining_reserve_amount = remaining;
  released_amount = 0;
  used_for_default_amount = 900 - remaining;
  release_per_contribution_amount = 300;
  remaining_contribution_count_at_creation = 3;
  contributions_released_count = 0;
  reserve_bps = 2400;
  status = ReserveStatus.active;
}

abbrev owed : Contribution
owed = record {
  id = 21;
  group_id = 7;
  user_id = 3;
  cycle_number = 2;
  amount = 500;
  expected_day_count = 1;
  paid_day_count = 0;
  status = ContributionStatus.late;
}

abbrev holding : ℕ → Db
holding remaining = record {
  ledger = record {
    accounts =
        (member_wallet_reserved 3, pos remaining)
        ∷ (member_wallet_available 3, pos 100)
        ∷ (group_pool 7, pos 0)
        ∷ [];
    transactions = [];
  };
  reserves = reserve_of remaining ∷ [];
  coverages = [];
  contributions = owed ∷ [];
  payments = [];
  groups = [];
  members = [];
  payouts = [];
  withdrawals = [];
  wallets = [];
  users = [];
  earnings = [];
  next_id = 100;
}

holding-IsConsistent : (n : ℕ) → n ≤ 900 → IsConsistent (holding n)
unfolding get_balance lookup
holding-IsConsistent n h = record {
  unique_ids = (tt, tt);
  accounted = (omega arith, tt);
  backed = λ u. ground arith;
}

abbrev payment_due : ReleaseParams
payment_due = record { user_id = 3; group_id = 7; payment_id = 31; cycle_number = 2 }

abbrev released_row : LedgerTransaction
released_row = record {
  idempotency_key = reserve_release 11 31;
  lines =
      record { account = member_wallet_reserved 3; delta = negsuc 299; balance_after = pos 600 }
      ∷ record { account = member_wallet_available 3; delta = pos 300; balance_after = pos 400 }
      ∷ [];
}

-- After the release of one unit.
abbrev unit_released : Db
unit_released = record (holding 900) {
  ledger = record {
    accounts =
        (member_wallet_reserved 3, pos 600)
        ∷ (member_wallet_available 3, pos 400)
        ∷ (group_pool 7, pos 0)
        ∷ [];
    transactions = released_row ∷ [];
  };
  reserves =
      record (reserve_of 900) {
        remaining_reserve_amount = 600;
        released_amount = 300;
        contributions_released_count = 1;
      }
      ∷ [];
}

unit_releases :
    try_release_on_payment_settled_in_tx config payment_due (holding 900)
    ≡ ok (released 300 false, unit_released)
unfolding try_release_on_payment_settled_in_tx find_active_reserve release_from finish_release
    move_between post_transfer_in_tx post_journal_in_tx assert_balanced check_lines
    assert_non_negative_after_delta apply_lines find_transaction lookup insert ◌+ℤ◌ neg
    get_or_create next_reserve_release_minor update_rows
unit_releases = refl

unit_fits :
    (r : Reserve)
    → find_active_reserve 3 7 (holding 900).reserves ≡ some r
    → next_release r ≤ r.remaining_reserve_amount
unfolding find_active_reserve next_reserve_release_minor
unit_fits r found = ground arith

try_release-IsConsistent_example : IsConsistent unit_released
try_release-IsConsistent_example =
    try_release-IsConsistent config payment_due (holding 900) unit_fits
      (holding-IsConsistent 900 (omega arith)) unit_releases

abbrev missed_day : CoverParams
missed_day = record { user_id = 3; group_id = 7; contribution_id = 21 }

abbrev covered_row : LedgerTransaction
covered_row = record {
  idempotency_key = default_cover 11 21;
  lines =
      record { account = member_wallet_reserved 3; delta = negsuc 499; balance_after = pos 400 }
      ∷ record { account = group_pool 7; delta = pos 500; balance_after = pos 500 }
      ∷ [];
}

-- After the whole of a missed contribution of 5.00 was covered.
abbrev day_covered : Db
day_covered = record (holding 900) {
  ledger = record {
    accounts =
        (member_wallet_reserved 3, pos 400)
        ∷ (member_wallet_available 3, pos 100)
        ∷ (group_pool 7, pos 500)
        ∷ [];
    transactions = covered_row ∷ [];
  };
  reserves =
      record (reserve_of 900) { remaining_reserve_amount = 400; used_for_default_amount = 500 }
      ∷ [];
  coverages =
      record {
        user_id = 3;
        group_id = 7;
        contribution_id = 21;
        reserve_id = 11;
        covered_amount = 500;
        missed_amount = 500;
        idempotency_key = default_cover 11 21;
      }
      ∷ [];
  contributions = record owed { status = ContributionStatus.paid; paid_day_count = 1 } ∷ [];
}

day_covers :
    cover_default_from_reserve_in_tx config missed_day (holding 900)
    ≡ ok (covered (record { amount = 500; fully_covered = true; duplicate = false }), day_covered)
unfolding cover_default_from_reserve_in_tx find_active_reserve find_contribution find_coverage
    cover_from finish_cover move_between post_transfer_in_tx post_journal_in_tx assert_balanced
    check_lines assert_non_negative_after_delta apply_lines find_transaction lookup insert ◌+ℤ◌ neg
    get_or_create missed_contribution_minor update_rows
day_covers = refl

cover_default-IsConsistent_example : IsConsistent day_covered
cover_default-IsConsistent_example =
    cover_default-IsConsistent config missed_day (holding 900)
      (holding-IsConsistent 900 (omega arith)) day_covers

cover_default-pays_example :
    (500 ≡ min (missed owed) 900)
    × (get_balance (group_pool 7) day_covered.ledger
        ≡ get_balance (group_pool 7) (holding 900).ledger
          +ℤ delta_on
              (group_pool 7)
              (transfer_lines (member_wallet_reserved 3) (group_pool 7) (pos 500)))
unfolding find_contribution find_active_reserve
cover_default-pays_example =
    cover_default-pays config missed_day (holding 900) day_covered owed (reserve_of 900) 500 refl
      refl day_covers (group_pool 7)

-- Nothing is reserved by a row, and 40 is left in the wallet.
abbrev orphaned : List LedgerTransaction → Db
orphaned log = record (holding 0) {
  ledger = record {
    accounts = (member_wallet_reserved 3, pos 40) ∷ (member_wallet_available 3, pos 100) ∷ [];
    transactions = log;
  };
  reserves = [];
}

abbrev swept_row : LedgerTransaction
swept_row = record {
  idempotency_key = orphan_sweep 3;
  lines =
      record { account = member_wallet_reserved 3; delta = negsuc 39; balance_after = pos 0 }
      ∷ record { account = member_wallet_available 3; delta = pos 40; balance_after = pos 140 }
      ∷ [];
}

abbrev swept : Db
swept = record (orphaned []) {
  ledger = record {
    accounts = (member_wallet_reserved 3, pos 0) ∷ (member_wallet_available 3, pos 140) ∷ [];
    transactions = swept_row ∷ [];
  };
}

first_sweep : sweep_orphaned_reserved_balance_in_tx 3 (orphaned []) ≡ ok (tt, swept)
unfolding sweep_orphaned_reserved_balance_in_tx sweep_balance get_balance move_between
    post_transfer_in_tx post_journal_in_tx assert_balanced check_lines
    assert_non_negative_after_delta apply_lines find_transaction lookup insert ◌+ℤ◌ neg
    get_or_create
first_sweep = refl

-- By a second sweep the wallet holds 40 again, and the available wallet is not open.
abbrev left_again : List (AccountKey × ℤ) → Db
left_again accounts = record (orphaned []) {
  ledger = record { accounts = accounts; transactions = swept_row ∷ [] };
}
