-- ===== src/CycleRisk/Tests.antt =====
-- A CYCLE group with a member who does not pay, and the theorems about the cycle's risk at it.
use myturn_webportal.Prelude.{
  ℕ, ◌*◌, ◌≡◌, refl, inl, inr, true, false, some, [], ◌∷◌, arith, ok, All, Bool-cases, ◌==◌,
}
use myturn_webportal.Prelude.Int.{pos, negsuc, ◌-ℤ◌}
use myturn_webportal.Dict.{lookup}
use myturn_webportal.Ledger.Account.{key_eq, system_external, member_deposit_escrow, group_pool}
use myturn_webportal.Ledger.Accounts.{get_balance}
use myturn_webportal.Ledger.Posting.{find_transaction}
use myturn_webportal.Store.Rows.{
  Contribution, ContributionStatus, Group, GroupStatus, GroupMember, MemberCycleStanding,
  DepositStatus, PayoutMode, Wallet,
}
use myturn_webportal.Store.{Db}
use myturn_webportal.Reserve.Split.{ReserveConfig}
use myturn_webportal.CycleRisk.Deposits.{
  find_member, find_wallet, held_members, release_all_held_deposits_for_group,
}
use myturn_webportal.CycleRisk.Deposits.Escrow.{IsEscrowed}
use myturn_webportal.CycleRisk.Deposits.Completion.{settled_member, release_deposits-returns}
use myturn_webportal.CycleRisk.Protection.{CycleNotices, turn_skipped}
use myturn_webportal.CycleRisk.Compliance.{sync_all_active_cycle_groups}
use myturn_webportal.CycleRisk.Compliance.Sync.{sync_all-IsEscrowed}

abbrev config : ReserveConfig
config = record { enabled = true; max_bps = pos 3000; min_bps = pos 0 }

abbrev group : Group
group = record {
  id = 7;
  admin_id = 1;
  status = GroupStatus.active;
  payout_mode = PayoutMode.cycle;
  current_cycle = 1;
  member_slots = 2;
  contribution_amount = 50;
  days_per_cycle = 10;
  service_margin_bps = 500;
  allow_payout_override = false;
  start_day = some 20000;
  default_grace_days = 2;
}

-- Of the deposit of 500, 300 is still locked in the member's legacy wallet.
abbrev owing : GroupMember
owing = record {
  id = 31;
  group_id = 7;
  user_id = 3;
  turn_order = 1;
  is_active = true;
  cycle_standing = MemberCycleStanding.late;
  deposit_amount = 500;
  deposit_status = DepositStatus.held;
  effective_payout_order = 1;
}

abbrev other : GroupMember
other = record {
  id = 32;
  group_id = 7;
  user_id = 4;
  turn_order = 2;
  is_active = true;
  cycle_standing = MemberCycleStanding.active;
  deposit_amount = 500;
  deposit_status = DepositStatus.released;
  effective_payout_order = 2;
}

abbrev missing : Contribution
missing = record {
  id = 21;
  group_id = 7;
  user_id = 3;
  cycle_number = 1;
  amount = 500;
  expected_day_count = 10;
  paid_day_count = 1;
  status = ContributionStatus.late;
}

abbrev legacy : Wallet
legacy = record { user_id = 3; locked_balance = pos 500 }

abbrev start : Db
start = record {
  ledger = record {
    accounts =
        (system_external, negsuc 199)
        ∷ (member_deposit_escrow 3, pos 200)
        ∷ (group_pool 7, pos 0)
        ∷ [];
    transactions = [];
  };
  reserves = [];
  coverages = [];
  contributions = missing ∷ [];
  payments = [];
  groups = group ∷ [];
  members = owing ∷ other ∷ [];
  payouts = [];
  withdrawals = [];
  wallets = legacy ∷ [];
  users = [];
  earnings = [];
  next_id = 60;
}

start-IsEscrowed : IsEscrowed start
unfolding find_wallet find_transaction lookup get_balance ◌-ℤ◌
start-IsEscrowed = record {
  unique_ids = ((ground arith, tt), (tt, tt));
  deposits = λ user. elim (Bool-cases (3 == user)) [
    | inl mine ↦ rw mine refl
    | inr theirs ↦ rw theirs refl
  ];
  migratable = λ user h. refl;
  are_open = (
    record { can_forfeit = λ h. refl; can_release = λ h. refl },
    (record { can_forfeit = λ h. refl; can_release = λ h. refl }, tt),
  );
  solvent = λ k b found internal. ground arith;
}

release_deposits-returns_example :
    (db' : Db) × (release_all_held_deposits_for_group 7 start ≡ ok (tt, db'))
    × IsEscrowed db'
    × All
        (λ m. find_member m.id db'.members ≡ some (settled_member m))
        (held_members 7 start.members)
release_deposits-returns_example = release_deposits-returns 7 start start-IsEscrowed

-- No notice can be stored, but the one of a skipped turn.
abbrev notices : CycleNotices
notices (turn_skipped _) = true
notices _ = false

-- The grace days end with day 20012; this is in day 20013.
abbrev now : ℕ
now = 20013 * 86400000

sync_all-IsEscrowed_example :
    IsEscrowed (sync_all_active_cycle_groups config notices (λ g. now) start)
sync_all-IsEscrowed_example = sync_all-IsEscrowed config notices (λ g. now) start start-IsEscrowed
