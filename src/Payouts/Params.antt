-- ===== src/Payouts/Params.antt =====
-- Who finalizes what, and for how many days members pay.
use myturn_webportal.Prelude.{ℕ, Bool, true, false, if◌then◌else◌}
use myturn_webportal.Store.Rows.{Group}
use myturn_webportal.CycleRisk.Deposits.{is_cycle}

pub data UserRole : Type 0 where
  super_admin admin user : UserRole

abbrev pub is_admin : UserRole → Bool
is_admin UserRole.admin = true
is_admin UserRole.super_admin = false
is_admin UserRole.user = false

pub record FinalizeParams : Type 0 where
  pub group_id : ℕ
  pub cycle_number : ℕ
  pub finalized_by_user_id : ℕ
  pub finalized_by_role : UserRole

-- memberCyclePaymentDays (member-cycle-payment-days.ts)
unfoldable pub member_cycle_payment_days : Group → ℕ
member_cycle_payment_days g = if is_cycle g.payout_mode then g.days_per_cycle else 1
