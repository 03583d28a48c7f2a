-- ===== src/Store/Rows.antt =====
-- The row types and their status columns (prisma/schema.prisma).
use myturn_webportal.Prelude.{◌==◌, ◌&&◌, ℕ, Bool, Option}
use myturn_webportal.Prelude.Int.{ℤ}
use myturn_webportal.Ledger.Account.{AccountKey}
use myturn_webportal.Ledger.Posting.Journal.{IdempotencyKey}

pub data ReserveStatus : Type 0 where
  active released forfeited cancelled : ReserveStatus

pub data ContributionStatus : Type 0 where
  pending paid late waived : ContributionStatus

pub data MemberCycleStanding : Type 0 where
  active late defaulted : MemberCycleStanding

pub data DepositStatus : Type 0 where
  not_required held released forfeited : DepositStatus

pub data GroupStatus : Type 0 where
  draft active completed cancelled : GroupStatus

pub data PayoutMode : Type 0 where
  daily cycle : PayoutMode

pub data PayoutStatus : Type 0 where
  pending processing completed failed credited : PayoutStatus

pub data WithdrawalStatus : Type 0 where
  pending processing completed failed : WithdrawalStatus

pub data WithdrawalActorRole : Type 0 where
  member admin : WithdrawalActorRole

-- `ContributionGuaranteeReserve`
pub record Reserve : Type 0 where
  pub id : ℕ
  pub user_id : ℕ
  pub group_id : ℕ
  pub payout_id : ℕ
  pub cycle_number : ℕ
  pub payout_position : ℕ
  pub original_reserve_amount : ℕ
  pub remaining_reserve_amount : ℕ
  pub released_amount : ℕ
  pub used_for_default_amount : ℕ
  pub release_per_contribution_amount : ℕ
  pub remaining_contribution_count_at_creation : ℕ
  pub contributions_released_count : ℕ
  pub reserve_bps : ℕ
  pub status : ReserveStatus

pub record DefaultCoverage : Type 0 where
  pub user_id : ℕ
  pub group_id : ℕ
  pub contribution_id : ℕ
  pub reserve_id : ℕ
  pub covered_amount : ℕ
  pub missed_amount : ℕ
  pub idempotency_key : IdempotencyKey

pub record Contribution : Type 0 where
  pub id : ℕ
  pub group_id : ℕ
  pub user_id : ℕ
  pub cycle_number : ℕ
  pub amount : ℕ
  pub expected_day_count : ℕ
  pub paid_day_count : ℕ
  pub status : ContributionStatus

-- A reference that came with a payment, or one that the service makes: `pay_<contribution>_<day>`,
-- `mock_<milliseconds>` and `deposit_<member>_<milliseconds>`.
pub data ExternalRef : Type 0 where
  given : ℕ → ExternalRef
  paid_day : ℕ → ℕ → ExternalRef
  mock_at : ℕ → ExternalRef
  deposit_at : ℕ → ℕ → ExternalRef

abbrev ref_kind : ExternalRef → ℕ
ref_kind (given _) = 0
ref_kind (paid_day _ _) = 1
ref_kind (mock_at _) = 2
ref_kind (deposit_at _ _) = 3

abbrev ref_id : ExternalRef → ℕ
ref_id (given r) = r
ref_id (paid_day c _) = c
ref_id (mock_at t) = t
ref_id (deposit_at m _) = m

abbrev ref_day : ExternalRef → ℕ
ref_day (given _) = 0
ref_day (paid_day _ d) = d
ref_day (mock_at _) = 0
ref_day (deposit_at _ t) = t

abbrev pub same_ref : ExternalRef → ExternalRef → Bool
same_ref a b = ref_kind a == ref_kind b && ref_id a == ref_id b && ref_day a == ref_day b

pub record Payment : Type 0 where
  pub id : ℕ
  pub user_id : ℕ
  pub group_id : ℕ
  pub amount : ℕ
  pub external_ref : ExternalRef

pub record Group : Type 0 where
  pub id : ℕ
  pub admin_id : ℕ
  pub status : GroupStatus
  pub payout_mode : PayoutMode
  pub current_cycle : ℕ
  pub member_slots : ℕ
  pub contribution_amount : ℕ
  pub days_per_cycle : ℕ
  pub service_margin_bps : ℕ
  pub allow_payout_override : Bool
  -- the day of `groupStartDate`, counted from 1970-01-01
  pub start_day : Option ℕ
  pub default_grace_days : ℕ

pub record GroupMember : Type 0 where
  pub id : ℕ
  pub group_id : ℕ
  pub user_id : ℕ
  pub turn_order : ℕ
  -- `status: "ACTIVE"`
  pub is_active : Bool
  pub cycle_standing : MemberCycleStanding
  pub deposit_amount : ℕ
  pub deposit_status : DepositStatus
  pub effective_payout_order : ℕ

pub record Payout : Type 0 where
  pub id : ℕ
  pub group_id : ℕ
  pub recipient_id : ℕ
  pub cycle_number : ℕ
  pub amount : ℕ
  pub status : PayoutStatus

pub record WithdrawalRequest : Type 0 where
  pub id : ℕ
  pub actor_id : ℕ
  pub actor_role : WithdrawalActorRole
  pub ledger_account : AccountKey
  pub amount : ℕ
  pub status : WithdrawalStatus
  -- a text, `none` if it is NULL
  pub provider_ref : Option ℕ
  pub requested_at : ℕ

-- The wallet of before the ledger: what is locked in it is a deposit that was not migrated.
pub record Wallet : Type 0 where
  pub user_id : ℕ
  pub locked_balance : ℤ

pub record User : Type 0 where
  pub id : ℕ
  pub cycle_default_flagged : Bool

pub record AdminEarning : Type 0 where
  pub admin_id : ℕ
  pub group_id : ℕ
  pub cycle_number : ℕ
  pub margin_amount : ℕ
  pub admin_share_amount : ℕ
  pub platform_share_amount : ℕ
