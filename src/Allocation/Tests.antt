-- ===== src/Allocation/Tests.antt =====
-- Runs of the allocation, and its theorems at them.
use myturn_webportal.Prelude.{
  ◌≡◌, refl, true, false, none, some, List, [], ◌∷◌, err, payment_already_recorded,
}
use myturn_webportal.Prelude.Int.{pos, negsuc}
use myturn_webportal.Shared.Cycle.{CycleSummary}
use myturn_webportal.Ledger.Account.{key_eq, platform_float, system_external, group_pool}
use myturn_webportal.Ledger.Posting.Journal.{contribution_inflow}
use myturn_webportal.Ledger.Posting.{LedgerTransaction}
use myturn_webportal.Store.Rows.{Contribution, ContributionStatus, Payment, given}
use myturn_webportal.Store.{Db}
use myturn_webportal.Reserve.Split.{ReserveConfig, ReserveSplitResult}
use myturn_webportal.Reserve.Cover.{find_contribution}
use myturn_webportal.Allocation.Settlement.{
  ContributionSettlementContext, advance_day, settle_in_tx, record_contribution_settlement,
}
use myturn_webportal.Allocation.Finalization.{FinalizationParams}

abbrev config : ReserveConfig
config = record { enabled = true; max_bps = pos 3000; min_bps = pos 0 }

abbrev due : Contribution
due = record {
  id = 21;
  group_id = 7;
  user_id = 3;
  cycle_number = 2;
  amount = 35000;
  expected_day_count = 7;
  paid_day_count = 1;
  status = ContributionStatus.pending;
}

abbrev day_two : ContributionSettlementContext
day_two = record {
  contribution_id = 21;
  amount = 5000;
  paid_day_index = 2;
  expected_day_count = 7;
  external_ref = some 8;
  payment_request_id = none;
  mock = false;
  now = 0;
}

abbrev earlier : Payment
earlier = record { id = 60; user_id = 3; group_id = 7; amount = 5000; external_ref = given 8 }

abbrev before : List Payment → Db
before payments = record {
  ledger = record {
    accounts = (system_external, pos 0) ∷ (platform_float, pos 0) ∷ (group_pool 7, pos 0) ∷ [];
    transactions = [];
  };
  reserves = [];
  coverages = [];
  contributions = due ∷ [];
  payments = payments;
  groups = [];
  members = [];
  payouts = [];
  withdrawals = [];
  wallets = [];
  users = [];
  earnings = [];
  next_id = 61;
}

abbrev inflow_row : LedgerTransaction
inflow_row = record {
  idempotency_key = contribution_inflow 21 2;
  lines =
      record { account = system_external; delta = negsuc 4999; balance_after = negsuc 4999 }
      ∷ record { account = platform_float; delta = pos 5000; balance_after = pos 5000 }
      ∷ record { account = platform_float; delta = negsuc 4999; balance_after = pos 0 }
      ∷ record { account = group_pool 7; delta = pos 5000; balance_after = pos 5000 }
      ∷ [];
}

abbrev day_two_payment : Payment
day_two_payment = record {
  id = 61;
  user_id = 3;
  group_id = 7;
  amount = 5000;
  external_ref = given 8;
}

abbrev after : Db
after = record (before (day_two_payment ∷ [])) {
  ledger = record {
    accounts =
        (system_external, negsuc 4999) ∷ (platform_float, pos 0) ∷ (group_pool 7, pos 5000) ∷ [];
    transactions = inflow_row ∷ [];
  };
  contributions = record due { paid_day_count = 2 } ∷ [];
  next_id = 62;
}

-- The third day cannot be settled before the second.
out_of_order :
    record_contribution_settlement config (record day_two { paid_day_index = 3 }) (before [])
    ≡ err payment_already_recorded
unfolding record_contribution_settlement find_contribution settle_in_tx advance_day
out_of_order = refl

-- Five members, 50.00 a day for 7 days, a margin of 10%: the first payout.
abbrev first_cycle : FinalizationParams
first_cycle = record {
  group_id = 7;
  cycle_number = 1;
  payout_id = 5;
  recipient_user_id = 3;
  contribution_per_day = 5000;
  member_count = 5;
  service_margin_bps = 1000;
  days_per_cycle = 7;
  payout_position = 1;
  total_positions = 5;
}

abbrev first_summary : CycleSummary
first_summary = record {
  cycle_number = 1;
  gross_pool_amount_minor = 175000;
  service_margin_minor = 17500;
  net_after_margin_minor = 157500;
  admin_share_minor = 0;
  platform_share_minor = 17500;
}

abbrev first_split : ReserveSplitResult
first_split = record {
  reserve_bps = 2400;
  reserve_minor = 37800;
  available_minor = pos 119700;
  units = 28;
}
