-- ===== src/Groups/Tests.antt =====
-- A group fills up, starts and replaces a member, and the theorems about it at these runs.
use myturn_webportal.Prelude.{ℕ, true, false, some, [], ◌∷◌}
use myturn_webportal.Prelude.Int.{pos, negsuc}
use myturn_webportal.Ledger.Account.{key_eq, system_external, member_deposit_escrow, group_pool}
use myturn_webportal.Ledger.Posting.Journal.{deposit_hold, escrow_migration}
use myturn_webportal.Ledger.Posting.{LedgerTransaction}
use myturn_webportal.Store.Rows.{
  Contribution, ContributionStatus, Group, GroupStatus, GroupMember, MemberCycleStanding,
  DepositStatus, PayoutMode, Payment, deposit_at,
}
use myturn_webportal.Store.{Db}
use myturn_webportal.Groups.Membership.{ReplaceParams, set_left}

abbrev group_in : GroupStatus → Group
group_in status = record {
  id = 7;
  admin_id = 1;
  status = status;
  payout_mode = PayoutMode.cycle;
  current_cycle = 1;
  member_slots = 2;
  contribution_amount = 50;
  days_per_cycle = 10;
  service_margin_bps = 500;
  allow_payout_override = false;
  start_day = some 20000;
  default_grace_days = 2;
}

abbrev first_member : GroupMember
first_member = record {
  id = 34;
  group_id = 7;
  user_id = 4;
  turn_order = 1;
  is_active = true;
  cycle_standing = MemberCycleStanding.active;
  deposit_amount = 500;
  deposit_status = DepositStatus.held;
  effective_payout_order = 1;
}

-- User 3 is to join, with 300 locked in a legacy wallet that belong to a deposit elsewhere.
abbrev elsewhere : GroupMember
elsewhere = record first_member { id = 33; group_id = 8; user_id = 3; deposit_amount = 300 }

abbrev waiting : Db
waiting = record {
  ledger = record {
    accounts = (system_external, negsuc 499) ∷ (member_deposit_escrow 4, pos 500) ∷ [];
    transactions = [];
  };
  reserves = [];
  coverages = [];
  contributions = [];
  payments = [];
  groups = group_in GroupStatus.draft ∷ [];
  members = first_member ∷ elsewhere ∷ [];
  payouts = [];
  withdrawals = [];
  wallets = record { user_id = 3; locked_balance = pos 300 } ∷ [];
  users = [];
  earnings = [];
  next_id = 60;
}

abbrev newcomer_row : GroupMember
newcomer_row = record {
  id = 60;
  group_id = 7;
  user_id = 3;
  turn_order = 2;
  is_active = true;
  cycle_standing = MemberCycleStanding.active;
  deposit_amount = 500;
  deposit_status = DepositStatus.held;
  effective_payout_order = 2;
}

abbrev migration : LedgerTransaction
migration = record {
  idempotency_key = escrow_migration 3;
  lines =
      record { account = system_external; delta = negsuc 299; balance_after = negsuc 799 }
      ∷ record { account = member_deposit_escrow 3; delta = pos 300; balance_after = pos 300 }
      ∷ [];
}

abbrev hold : LedgerTransaction
hold = record {
  idempotency_key = deposit_hold 61;
  lines =
      record { account = system_external; delta = negsuc 499; balance_after = negsuc 1299 }
      ∷ record { account = member_deposit_escrow 3; delta = pos 500; balance_after = pos 800 }
      ∷ [];
}

abbrev deposit : Payment
deposit = record {
  id = 61;
  user_id = 3;
  group_id = 7;
  amount = 500;
  external_ref = deposit_at 60 9000;
}

abbrev joined : Db
joined = record waiting {
  ledger = record {
    accounts =
        (system_external, negsuc 1299)
        ∷ (member_deposit_escrow 4, pos 500)
        ∷ (member_deposit_escrow 3, pos 800)
        ∷ [];
    transactions = hold ∷ migration ∷ [];
  };
  payments = deposit ∷ [];
  members = newcomer_row ∷ first_member ∷ elsewhere ∷ [];
  wallets = record { user_id = 3; locked_balance = pos 0 } ∷ [];
  next_id = 62;
}

abbrev due : ℕ → ℕ → Contribution
due id user = record {
  id = id;
  group_id = 7;
  user_id = user;
  cycle_number = 1;
  amount = 500;
  expected_day_count = 10;
  paid_day_count = 0;
  status = ContributionStatus.pending;
}

abbrev started : Db
started = record joined {
  groups = group_in GroupStatus.active ∷ [];
  contributions = due 63 4 ∷ due 62 3 ∷ [];
  next_id = 64;
}

-- Member 4 has defaulted, and is to be replaced by user 3.
abbrev failing : Db
failing = record waiting {
  ledger = record {
    accounts = (system_external, negsuc 499) ∷ (group_pool 7, pos 500) ∷ [];
    transactions = [];
  };
  groups = group_in GroupStatus.active ∷ [];
  contributions = record (due 63 4) { paid_day_count = 2; status = ContributionStatus.late } ∷ [];
  members =
      record first_member {
        cycle_standing = MemberCycleStanding.defaulted;
        deposit_status = DepositStatus.forfeited;
      }
      ∷ elsewhere
      ∷ [];
  users = record { id = 3; cycle_default_flagged = false } ∷ [];
}

abbrev request : ReplaceParams
request = record { admin_id = 1; group_id = 7; old_user_id = 4; new_user_id = 3; now = 9000 }

abbrev replaced : Db
replaced = record failing {
  ledger = record {
    accounts =
        (system_external, negsuc 1299)
        ∷ (group_pool 7, pos 500)
        ∷ (member_deposit_escrow 3, pos 800)
        ∷ [];
    transactions = hold ∷ migration ∷ [];
  };
  contributions = due 63 3 ∷ [];
  payments = deposit ∷ [];
  members =
      record newcomer_row { turn_order = 1; effective_payout_order = 1 }
      ∷ (set_left 34 failing).members;
  wallets = record { user_id = 3; locked_balance = pos 0 } ∷ [];
  next_id = 62;
}
