-- ===== src/Payouts/Tests.antt =====
-- A cycle of a CYCLE group is paid out, and the theorems about it at this run.
use myturn_webportal.Prelude.{
  ℕ, ◌≡◌, ◌+◌, refl, true, false, some, [], ◌∷◌, arith, ok, ltb, if◌then◌else◌,
}
use myturn_webportal.Prelude.Int.{pos, negsuc, ◌+ℤ◌, ◌-ℤ◌, neg, ◌≤ℤ◌}
use myturn_webportal.Dict.{lookup, insert, total}
use myturn_webportal.Shared.Cycle.{
  CycleSummary, summarize_cycle, gross_pool_amount_minor, margin_from_gross_minor,
  split_margin_minor,
}
use myturn_webportal.Shared.Queue.{insert_member, sort_members, scan, select_payout_recipient}
use myturn_webportal.Shared.ReserveRules.{
  compute_reserve_bps, compute_reserve_amount_minor, compute_release_per_unit_minor,
  post_payout_contribution_units,
}
use myturn_webportal.Ledger.Account.{
  key_eq, system_external, group_pool, myturn_revenue, member_wallet, member_wallet_available,
  member_wallet_reserved,
}
use myturn_webportal.Ledger.Accounts.{get_balance, get_or_create}
use myturn_webportal.Ledger.Posting.Journal.{cycle_finalize}
use myturn_webportal.Ledger.Posting.Solvency.{IsSolvent}
use myturn_webportal.Ledger.Posting.{
  LedgerTransaction, find_transaction, post_journal_in_tx, post_transfer_in_tx, assert_balanced,
  check_lines, assert_non_negative_after_delta, apply_lines,
}
use myturn_webportal.Store.Rows.{
  Contribution, ContributionStatus, Group, GroupStatus, GroupMember, MemberCycleStanding,
  DepositStatus, PayoutMode, PayoutStatus, Payout, Reserve, ReserveStatus,
}
use myturn_webportal.Store.{Db, update_rows}
use myturn_webportal.Reserve.Completion.{find_group}
use myturn_webportal.Reserve.Split.{
  ReserveConfig, compute_split, ensure_legacy_wallet_migrated_in_tx, insert_reserve,
  create_reserve_on_payout_in_tx,
}
use myturn_webportal.Allocation.Finalization.{
  allocation_lines, summary_for, split_for, allocate_cycle_finalization_in_tx,
}
use myturn_webportal.Allocation.Finalization.Pool.{TakesPool}
use myturn_webportal.Payouts.Readiness.{assert_cycle_contributions_ready_for_finalize}
use myturn_webportal.Payouts.Finalize.{
  Finalized, has_payout, check_finalize, pay_recipient, finalize_members, finalize_found,
  finalize_in_tx,
}
use myturn_webportal.Payouts.Advance.{open_contributions, advance}
use myturn_webportal.Payouts.Recipient.{insert_by_turn, by_turn_order, group_members}
use myturn_webportal.Payouts.Params.{FinalizeParams, UserRole, member_cycle_payment_days}
use myturn_webportal.Payouts.Finalize.Money.{
  finalize-conserves, finalize-needs_pool, finalize-TakesPool,
}
use myturn_webportal.Payouts.Finalize.Once.{finalize-once, finalize-advances}

abbrev config : ReserveConfig
config = record { enabled = true; max_bps = pos 3000; min_bps = pos 0 }

abbrev group : Group
group = record {
  id = 7;
  admin_id = 1;
  status = GroupStatus.active;
  payout_mode = PayoutMode.cycle;
  current_cycle = 1;
  member_slots = 2;
  contribution_amount = 50;
  days_per_cycle = 10;
  service_margin_bps = 500;
  allow_payout_override = false;
  start_day = some 20000;
  default_grace_days = 2;
}

abbrev member : ℕ → ℕ → MemberCycleStanding → DepositStatus → GroupMember
member user turn standing deposit = record {
  id = user + 30;
  group_id = 7;
  user_id = user;
  turn_order = turn;
  is_active = true;
  cycle_standing = standing;
  deposit_amount = 500;
  deposit_status = deposit;
  effective_payout_order = turn;
}

abbrev due : ℕ → ContributionStatus → Contribution
due user status = record {
  id = user + 20;
  group_id = 7;
  user_id = user;
  cycle_number = 1;
  amount = 500;
  expected_day_count = 10;
  paid_day_count = 10;
  status = status;
}

-- Member 4 is DEFAULTED and has not paid: the forfeited deposit is in the pool instead.
abbrev before : Db
before = record {
  ledger = record {
    accounts = (system_external, negsuc 999) ∷ (group_pool 7, pos 1000) ∷ [];
    transactions = [];
  };
  reserves = [];
  coverages = [];
  contributions = due 3 ContributionStatus.paid ∷ due 4 ContributionStatus.late ∷ [];
  payments = [];
  groups = group ∷ [];
  members =
      member 4 2 MemberCycleStanding.defaulted DepositStatus.forfeited
      ∷ member 3 1 MemberCycleStanding.active DepositStatus.not_required
      ∷ [];
  payouts = [];
  withdrawals = [];
  wallets = [];
  users = [];
  earnings = [];
  next_id = 60;
}

abbrev params : FinalizeParams
params = record {
  group_id = 7;
  cycle_number = 1;
  finalized_by_user_id = 1;
  finalized_by_role = UserRole.admin;
}

abbrev summary : CycleSummary
summary = record {
  cycle_number = 1;
  gross_pool_amount_minor = 1000;
  service_margin_minor = 50;
  net_after_margin_minor = 950;
  admin_share_minor = 0;
  platform_share_minor = 50;
}

abbrev paid_out : Payout
paid_out = record {
  id = 60;
  group_id = 7;
  recipient_id = 3;
  cycle_number = 1;
  amount = 950;
  status = PayoutStatus.credited;
}

abbrev result : Finalized
result = record {
  payout = paid_out;
  summary = summary;
  allocation = record {
    summary = summary;
    split = record {
      reserve_bps = 1500;
      reserve_minor = 142;
      available_minor = pos 808;
      units = 10;
    };
    reserve_record_id = some 61;
  };
  group_completed = false;
  releases = [];
}

abbrev posting : LedgerTransaction
posting = record {
  idempotency_key = cycle_finalize 60;
  lines =
      record { account = group_pool 7; delta = negsuc 999; balance_after = pos 0 }
      ∷ record { account = member_wallet_available 3; delta = pos 808; balance_after = pos 808 }
      ∷ record { account = myturn_revenue; delta = pos 50; balance_after = pos 50 }
      ∷ record { account = member_wallet_reserved 3; delta = pos 142; balance_after = pos 142 }
      ∷ [];
}

abbrev next_due : ℕ → ℕ → Contribution
next_due id user = record {
  id = id;
  group_id = 7;
  user_id = user;
  cycle_number = 2;
  amount = 500;
  expected_day_count = 10;
  paid_day_count = 0;
  status = ContributionStatus.pending;
}

abbrev held_back : Reserve
held_back = record {
  id = 61;
  user_id = 3;
  group_id = 7;
  payout_id = 60;
  cycle_number = 1;
  payout_position = 1;
  original_reserve_amount = 142;
  remaining_reserve_amount = 142;
  released_amount = 0;
  used_for_default_amount = 0;
  release_per_contribution_amount = 14;
  remaining_contribution_count_at_creation = 10;
  contributions_released_count = 0;
  reserve_bps = 1500;
  status = ReserveStatus.active;
}

abbrev after : Db
after = record before {
  ledger = record {
    accounts =
        (system_external, negsuc 999)
        ∷ (group_pool 7, pos 0)
        ∷ (member_wallet 3, pos 0)
        ∷ (member_wallet_available 3, pos 808)
        ∷ (member_wallet_reserved 3, pos 142)
        ∷ (myturn_revenue, pos 50)
        ∷ [];
    transactions = posting ∷ [];
  };
  reserves = held_back ∷ [];
  contributions = next_due 63 4 ∷ next_due 62 3 ∷ before.contributions;
  groups = record group { current_cycle = 2 } ∷ [];
  payouts = paid_out ∷ [];
  earnings =
      record {
        admin_id = 1;
        group_id = 7;
        cycle_number = 1;
        margin_amount = 50;
        admin_share_amount = 0;
        platform_share_amount = 50;
      }
      ∷ [];
  next_id = 64;
}

finalize_runs : finalize_in_tx config params before ≡ ok (result, after)
unfolding finalize_in_tx find_group lookup insert summarize_cycle gross_pool_amount_minor
    margin_from_gross_minor split_margin_minor insert_member sort_members scan
    select_payout_recipient compute_reserve_bps compute_reserve_amount_minor
    compute_release_per_unit_minor post_payout_contribution_units get_balance get_or_create
    find_transaction post_journal_in_tx post_transfer_in_tx assert_balanced check_lines
    assert_non_negative_after_delta apply_lines compute_split ensure_legacy_wallet_migrated_in_tx
    insert_reserve create_reserve_on_payout_in_tx allocation_lines summary_for split_for
    allocate_cycle_finalization_in_tx assert_cycle_contributions_ready_for_finalize
    member_cycle_payment_days insert_by_turn by_turn_order group_members check_finalize
    open_contributions advance pay_recipient finalize_members finalize_found ◌+ℤ◌ ◌-ℤ◌ neg
    update_rows
finalize_runs = refl

-- A retry, by somebody else and with another payout in the table.
abbrev again : FinalizeParams
again = record params { finalized_by_user_id = 2; finalized_by_role = UserRole.super_admin }

abbrev elsewhere : Payout
elsewhere = record paid_out { id = 70; group_id = 8 }

abbrev later : Db
later = record after { payouts = elsewhere ∷ after.payouts }

finalize-once_example : ¬ ((r : Finalized × Db) × (finalize_in_tx config again later ≡ ok r))
finalize-once_example =
    finalize-once config params before finalize_runs again later (elsewhere ∷ []) refl refl refl

finalize-advances_example :
    (g : Group) × (find_group 7 before.groups ≡ some g)
    × (g.current_cycle ≡ 1)
    × (has_payout 7 1 before.payouts ≡ false)
    × (after.payouts ≡ paid_out ∷ before.payouts)
    × (paid_out.group_id ≡ 7)
    × (paid_out.cycle_number ≡ 1)
    × (paid_out.amount ≡ summary.net_after_margin_minor)
    × (find_group 7 after.groups
        ≡ some (
            if ltb 1 g.member_slots
            then record g { current_cycle = 2 }
            else record g { status = GroupStatus.completed }))
finalize-advances_example = finalize-advances config params before finalize_runs

before-IsSolvent : IsSolvent before.ledger.accounts
unfolding lookup
before-IsSolvent k b found internal = ground arith

finalize-conserves_example :
    (total after.ledger.accounts ≡ total before.ledger.accounts) × IsSolvent after.ledger.accounts
finalize-conserves_example = finalize-conserves config params before finalize_runs before-IsSolvent

finalize-needs_pool_example : pos 1000 ≤ℤ get_balance (group_pool 7) before.ledger
unfolding find_transaction
finalize-needs_pool_example = finalize-needs_pool config params before finalize_runs refl

finalize-TakesPool_example : TakesPool 7 summary before after
unfolding find_transaction find_group
finalize-TakesPool_example =
    finalize-TakesPool config params before group finalize_runs refl refl refl
